-- ===== src/Storage/Host.antt =====
-- storage/host.go: the Host record, its session IDs, its current boot sequence.
use epoxy.Base.{ℕ, Bool, Str, ascii, List, Error, if◌then◌else◌}
use epoxy.Base.Dict.{Dict}
use epoxy.Base.Exec.{Exec, pure, ◌>>=◌}
use epoxy.Go.Base64

abbrev pub stage1_ipxe : Str
unfolding ascii
stage1_ipxe = ascii "stage1.ipxe"

abbrev pub stage1_json : Str
unfolding ascii
stage1_json = ascii "stage1.json"

abbrev pub stage2 : Str
unfolding ascii
stage2 = ascii "stage2"

abbrev pub stage3 : Str
unfolding ascii
stage3 = ascii "stage3"

pub record SessionIds : Type 0 where
  pub stage2_id : Str
  pub stage3_id : Str
  pub report_id : Str
  pub extension_id : Str

-- A time is its distance from the zero value of time.Time, in nanoseconds.
abbrev pub Time : Type 0
Time = ℕ

pub record Host : Type 0 where
  pub name : Str
  pub ipv4_addr : Str
  pub boot : Dict Str
  pub update : Dict Str
  pub images_version : Str
  pub update_enabled : Bool
  pub extensions : List Str
  pub current_session_ids : SessionIds
  pub last_session_creation : Time
  pub last_report : Time
  pub last_success : Time
  pub collected_information : Dict Str

-- `randRead` and `timeNow`: crypto/rand.Read for a number of bytes, and time.Now, which never fails.
pub record Runtime (W : Type 0) : Type 0 where
  pub rand_read : ℕ → Exec W Error Str
  pub time_now : Exec W Error Time

abbrev pub random_session_byte_count : ℕ
random_session_byte_count = 20

unfoldable pub current_sequence : Host → Dict Str
current_sequence h = if h.update_enabled then h.update else h.boot

module _ {W : Type 0} (rt : Runtime W) where
  -- An error of `randRead` is a panic.
  unfoldable pub generate_session_id : Exec W Error Str
  generate_session_id = do b ← rt.rand_read random_session_byte_count; pure (Base64.encode b)

  unfoldable pub generate_session_ids : Host → Exec W Error Host
  generate_session_ids h = do
    id2 ← generate_session_id
    id3 ← generate_session_id
    id4 ← generate_session_id
    id5 ← generate_session_id
    now ← rt.time_now
    pure (record h {
      current_session_ids = record {
        stage2_id = id2;
        stage3_id = id3;
        report_id = id4;
        extension_id = id5;
      };
      last_session_creation = now;
    })
