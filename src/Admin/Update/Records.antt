-- ===== src/Admin/Update/Records.antt =====
-- cmd/epoxy_admin/command/update.go: the records after an update.
use epoxy.Base.{Str, ◌≡◌, refl, sym, ◌∙◌, ap, Option, some, Bool, true, false, ok, List, Listed}
use epoxy.Base.Exec.{lift, Keeps, Keeps-bind, Keeps-bind_returned, Keeps-lift}
use epoxy.Base.Exec.Gives.{Gives, Gives-bind, Gives-lift, Gives-assume}
use epoxy.Storage.Host.{Host}
use epoxy.Storage.Datastore.{Key, DatastoreConfig, list}
use epoxy.Admin.Tools.{Tools, connect}
use epoxy.Admin.Update.{run_update}
use epoxy.Admin.Update.Record.{UpdateFlags, handle_update}
use epoxy.Admin.Update.Laws.{update_hosts-Keeps, update_hosts-Gives}
use epoxy.Admin.Store.{
  IsAdministered, host_key, stored_in, IsOurs, connect-IsOurs, connect-keeps, Holds, keeping-Keeps,
  list-Keeps, IsKeyedIn, listed_stored, stored_listed,
}

-- `h` is listed, and nothing else under its name.
abbrev IsOnly : Host → List Host → Type 0
IsOnly h hosts = Listed h hosts × ((k : Host) → Listed k hosts → k.name ≡ h.name → k ≡ h)

module _ {W : Type 0} (entity : W → Key → Option Host) (t : Tools W)
    (laws : IsAdministered entity t) (project : Str) (f : UpdateFlags) where
  listed-IsOnly :
      (ds : DatastoreConfig W) (ours : IsOurs entity ds) (w₀ w : W) (hosts : List Host) (h : Host)
      → IsKeyedIn entity w₀
      → entity w ≡ entity w₀
      → (list ds w).0 ≡ ok hosts
      → stored_in entity w₀ h.name ≡ some h
      → IsOnly h hosts
  listed-IsOnly ds ours w₀ w hosts h keyed view all there =
      let same : (n : Str) → stored_in entity w n ≡ stored_in entity w₀ n =
        λ n. ap (λ v. v (host_key n)) view in
      let keyed' : IsKeyedIn entity w = λ n k e. keyed n k (sym (same n) ∙ e) in
      (
        stored_listed entity ds ours w hosts h.name h all (same h.name ∙ there),
        λ k listed name.
            let found = listed_stored entity ds ours w hosts k keyed' all listed in
            let found' : stored_in entity w₀ h.name ≡ some k =
              rw (← name) (sym (same k.name) ∙ found) in
            cc,
      )

  -- Whatever way an update ends, it leaves the record under a name that the pattern does not match as
  -- it was, or missing.
  pub run_update_keeps :
      (w : W) (n : Str)
      → ((matches : Str → Bool) → t.compile f.hostname ≡ ok matches → matches n ≡ false)
      → stored_in entity (run_update t project f w).1 n ≡ stored_in entity w n
  unfolding run_update
  run_update_keeps w n unmatched =
      let R : Option Host → Type 0 = λ o. o ≡ stored_in entity w n in
      let block : Keeps (Holds entity n R) (run_update t project f) =
        Keeps-bind_returned (connect t project) _
          (keeping-Keeps entity n R _ (connect-keeps entity t laws project))
          λ ds w₁ _ made.
            let ours = connect-IsOurs entity t laws project w₁ ds made in
            Keeps-bind (list ds) _ (list-Keeps entity n R ds ours) λ hosts.
              Keeps-bind_returned (lift (t.compile f.hostname)) _ (Keeps-lift _) λ matches _ _ e.
                update_hosts-Keeps entity t project f ds ours matches n R hosts
                  λ h _ matched same _ _.
                    let matched' : matches n ≡ true = rw (← same) matched in
                    let missed = unmatched matches e in cc in
      block.at w refl

  -- An update that succeeds has put in the place of each record whose name the pattern matches what
  -- `handle_update` makes of it. Before, records are stored under their own names.
  pub run_update_updates :
      (w : W) (matches : Str → Bool) (h : Host)
      → IsKeyedIn entity w
      → t.compile f.hostname ≡ ok matches
      → stored_in entity w h.name ≡ some h
      → matches h.name ≡ true
      → (run_update t project f w).0 ≡ ok tt
      → (new : Host) × (handle_update t project f h ≡ ok new)
        × (stored_in entity (run_update t project f w).1 h.name ≡ some new)
  unfolding run_update
  run_update_updates w₀ matches h keyed compiled there matched done =
      let R : Option Host → Type 0 =
        λ o. (new : Host) × (handle_update t project f h ≡ ok new) × (o ≡ some new) in
      let block : Gives (λ w. entity w ≡ entity w₀) (run_update t project f)
          (λ _. Holds entity h.name R) =
        Gives-bind {Q = λ ds w. IsOurs entity ds × (entity w ≡ entity w₀)} (connect t project) _
          (record {
            at = λ w view ds made. (
              connect-IsOurs entity t laws project w ds made,
              connect-keeps entity t laws project w ∙ view,
            );
          })
          λ ds. Gives-assume λ ours.
            Gives-bind {Q = λ hosts _. IsOnly h hosts × Unit} (list ds) _
              (record {
                at = λ w view hosts all.
                    (listed-IsOnly ds ours w₀ w hosts h keyed view all there, tt);
              })
              λ hosts. Gives-assume λ only.
                Gives-bind (lift (t.compile f.hostname)) _ (Gives-lift _) λ matches'.
                  Gives-assume λ e.
                    let same : matches ≡ matches' = cc in
                    rw (← same) (
                      update_hosts-Gives entity t project f ds ours matches h R hosts only.0 matched
                        λ k listed _ name new made. (
                          new,
                          ap (handle_update t project f) (sym (only.1 k listed name)) ∙ made,
                          refl,
                        )) in
      block.at w₀ refl tt done
