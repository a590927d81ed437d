-- ===== src/Handler/Recorded.antt =====
-- handler/handler.go and template/template.go: what a report puts in the record, and what the
-- configuration of a stage is.
use epoxy.Base.{
  Str, ascii, ◌==◌, eq_iff, ◌≡◌, ◌≢◌, refl, false, some, [], if◌then◌else◌, inl, inr, Bool-cases,
}
use epoxy.Base.Dict.{lookup, or_empty}
use epoxy.Go.Strings.{replace_first}
use epoxy.Storage.Host.{Host, Time, current_sequence}
use epoxy.Nextboot.Config.{Config}
use epoxy.Template.Scripts.{chain_url, format_json_config}
use epoxy.Handler.Boot.{reported}

-- The report's time is recorded. The message "success" is recorded with it, and ends an update;
-- any other leaves both as they were.
pub record IsRecorded (message : Str) (now : Time) (old new : Host) : Type 0 where
  pub same : new ≡ record old {
    last_report = now;
    last_success = new.last_success;
    update_enabled = new.update_enabled;
  }
  pub on_success :
      message ≡ ascii "success" → (new.last_success ≡ now) × (new.update_enabled ≡ false)
  pub on_failure :
      message ≢ ascii "success"
      → (new.last_success ≡ old.last_success) × (new.update_enabled ≡ old.update_enabled)

pub reported-IsRecorded :
    (message : Str) (now : Time) (h : Host) → IsRecorded message now h (reported message now h)
unfolding reported
reported-IsRecorded message now h = elim (Bool-cases (message == ascii "success")) [
  | inl e ↦ rw e (record {
    same = refl;
    on_success = λ _. (refl, refl);
    on_failure = λ other. absurd (other ((eq_iff message (ascii "success")).0 e));
  })
  | inr e ↦ rw e (record {
    same = refl;
    on_success = λ same. let e' = (eq_iff message (ascii "success")).1 same in absurd cc;
    on_failure = λ _. (refl, refl);
  })
]

-- The configuration names the URL of the stage in the update sequence, if the update is enabled, or
-- else in the boot sequence, with the images version in place of the first {{VERSION}}; and it has
-- nothing else.
abbrev pub stage_config : Host → Str → Config
stage_config h stage =
    let sequence = if h.update_enabled then h.update else h.boot in
    let url = or_empty (lookup stage sequence) in
    record {
      kargs = [];
      v1 = some (record {
        chain = replace_first url (ascii "{{VERSION}}") h.images_version;
        vars = [];
        files = [];
        env = [];
        commands = [];
      });
    }

pub format_json_config_lem :
    (h : Host) (stage : Str) → format_json_config h stage ≡ stage_config h stage
unfolding format_json_config chain_url current_sequence ascii
format_json_config_lem h stage = refl
