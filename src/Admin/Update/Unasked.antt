-- ===== src/Admin/Update/Unasked.antt =====
-- cmd/epoxy_admin/command/update.go: an update to which only --hostname is given.
use epoxy.Base.{
  Str, ascii, ◌==◌, eq_iff, ◌≡◌, refl, ◌∙◌, false, [], ok, err, Result, inl, inr, Bool-cases,
}
use epoxy.Base.Dict.{Dict, lookup, insert, lookup-insert, or_empty}
use epoxy.Base.Fallible.{◌>>=◌, Returns, Returns-ok, Returns-bind_returned}
use epoxy.Go.Strings.{contains, has_prefix}
use epoxy.Storage.Host.{Host, stage1_ipxe, stage1_json, stage2, stage3}
use epoxy.Admin.Tools.{Tools, parsed, fmt_url}
use epoxy.Admin.Update.Record.{update_defaults, update_url, set_stage, set_sequence, handle_update}

-- The same URL, or none, for every stage.
abbrev pub SameUrls : Dict Str → Dict Str → Type 0
SameUrls new old = (stage : Str) → or_empty (lookup stage new) ≡ or_empty (lookup stage old)

-- What an update without options makes of a record.
abbrev pub IsUnasked : Host → Host → Type 0
IsUnasked h new =
    (new ≡ record h { update_enabled = false; boot = new.boot; update = new.update })
    × SameUrls new.boot h.boot
    × SameUrls new.update h.update

insert_own : (stage : Str) (m : Dict Str) → SameUrls (insert stage (or_empty (lookup stage m)) m) m
insert_own stage m sought =
    rw (lookup-insert stage sought (or_empty (lookup stage m)) m)
      (elim (Bool-cases (stage == sought)) [
        | inl e ↦ rw (e, (eq_iff stage sought).0 e) refl
        | inr e ↦ rw e refl
      ])

parsed-nil : (r : Result (Unit {0})) → Returns (λ url. url ≡ []) (parsed [] r)
parsed-nil (ok u) = Returns-ok _ _ refl
parsed-nil (err e) = record { at = λ url made. cc }

module _ {W : Type 0} (t : Tools W) (project : Str) where
  fmt_url-nil : Returns (λ url. url ≡ []) (fmt_url t project [])
  unfolding fmt_url contains has_prefix ascii
  fmt_url-nil = parsed-nil (t.parse_url [])

  set_stage-Returns :
      (stage : Str) (old m : Dict Str)
      → SameUrls m old
      → Returns (λ new. SameUrls new old) (set_stage t project stage [] m)
  unfolding set_stage update_url ◌==◌ ◌>>=◌
  set_stage-Returns stage old m same = Returns-bind_returned _ _ _ _ fmt_url-nil λ url none_given.
      rw none_given (Returns-ok _ _ λ sought. insert_own stage m sought ∙ same sought)

  set_sequence-Returns :
      (m : Dict Str) → Returns (λ new. SameUrls new m) (set_sequence t project [] [] [] [] m)
  unfolding set_sequence
  set_sequence-Returns m =
      Returns-bind_returned _ _ _ _ (set_stage-Returns stage1_ipxe m m (λ _. refl)) λ m₁ s₁.
        Returns-bind_returned _ _ _ _ (set_stage-Returns stage1_json m m₁ s₁) λ m₂ s₂.
          Returns-bind_returned _ _ _ _ (set_stage-Returns stage2 m m₂ s₂)
            λ m₃ s₃. set_stage-Returns stage3 m m₃ s₃

  -- An update to which no option but the hostname is given turns the update of a record off, and
  -- leaves the URL of every stage and all other fields as they were.
  pub handle_update-IsUnasked :
      (hostname : Str) (h new : Host)
      → handle_update t project (record update_defaults { hostname = hostname }) h ≡ ok new
      → IsUnasked h new
  unfolding handle_update ◌==◌
  handle_update-IsUnasked hostname h new done =
      let block : Returns (IsUnasked h)
          (handle_update t project (record update_defaults { hostname = hostname }) h) =
        Returns-bind_returned _ _ _ _ (set_sequence-Returns h.boot) λ boot same_boot.
          Returns-bind_returned _ _ _ _ (set_sequence-Returns h.update)
            λ update same_update. Returns-ok _ _ (refl, same_boot, same_update) in
      block.at new done
