-- ===== src/Admin/Create/Laws.antt =====
-- cmd/epoxy_admin/command/create.go: what a creation stores.
use epoxy.Base.{Str, ◌≡◌, refl, sym, ◌∙◌, Option, some, ok}
use epoxy.Base.Fallible.{Returns, Returns-bind, Returns-ok}
use epoxy.Base.Exec.{lift, Keeps, Keeps-lift, Keeps-bind, Keeps-bind_returned}
use epoxy.Base.Exec.Gives.{Gives, Gives-bind, Gives-lift}
use epoxy.Storage.Host.{Host}
use epoxy.Storage.Datastore.{Key, save}
use epoxy.Admin.Tools.{Tools, connect}
use epoxy.Admin.Create.{run_create}
use epoxy.Admin.Create.Record.{CreateFlags, new_host}
use epoxy.Admin.Store.{
  IsAdministered, stored_in, IsOurs, connect-IsOurs, connect-keeps, Holds, keeping-Keeps,
  load-Keeps, save-Keeps, saved_ok,
}

module _ {W : Type 0} (t : Tools W) (project : Str) where
  new_host-Returns :
      (f : CreateFlags) → Returns (λ (h : Host). h.name ≡ f.hostname) (new_host t project f)
  unfolding new_host
  new_host-Returns f = Returns-bind _ _ _ λ _. Returns-bind _ _ _ λ _. Returns-bind _ _ _ λ _.
      Returns-bind _ _ _ λ _. Returns-bind _ _ _ λ _.
        Returns-bind _ _ _ λ _. Returns-bind _ _ _ λ _. Returns-bind _ _ _ λ _. Returns-ok _ _ refl

  pub name-new_host :
      (f : CreateFlags) (h : Host) → new_host t project f ≡ ok h → h.name ≡ f.hostname
  name-new_host f h e = (new_host-Returns f).at h e

module _ {W : Type 0} (entity : W → Key → Option Host) (t : Tools W)
    (laws : IsAdministered entity t) (project : Str) where
  -- A property of the record under `n` is kept if the created host, where it has that name, has it.
  pub run_create-Keeps :
      (n : Str) (R : Option Host → Type 0) (f : CreateFlags)
      → ((h : Host) → new_host t project f ≡ ok h → f.hostname ≡ n → R (some h))
      → Keeps (Holds entity n R) (run_create t project f)
  unfolding run_create
  run_create-Keeps n R f new =
      Keeps-bind_returned (connect t project) _
        (keeping-Keeps entity n R _ (connect-keeps entity t laws project))
        λ ds w _ made.
          let ours = connect-IsOurs entity t laws project w ds made in
          Keeps-bind_returned (lift (new_host t project f)) _ (Keeps-lift _) λ h _ _ e.
            Keeps-bind (save ds h) _
              (save-Keeps entity n R ds ours h
                (λ same. new h e (sym (name-new_host t project f h e) ∙ same)))
              λ _. load-Keeps entity n R ds ours h.name

  -- A creation that succeeds has stored the new host under its name.
  pub run_create-Gives :
      (f : CreateFlags)
      → Gives
          (λ _. Unit)
          (run_create t project f)
          (λ printed w.
            (h : Host) × (new_host t project f ≡ ok h) × (stored_in entity w f.hostname ≡ some h))
  unfolding run_create
  run_create-Gives f =
      Gives-bind {Q = λ ds w. IsOurs entity ds} (connect t project) _
        (record { at = λ w _ ds made. connect-IsOurs entity t laws project w ds made })
        λ ds. Gives-bind (lift (new_host t project f)) _ (Gives-lift _) λ h.
          Gives-bind
            {Q = λ _ w.
              (new_host t project f ≡ ok h)
              × IsOurs entity ds
              × (stored_in entity w h.name ≡ some h)}
            (save ds h) _
            (record {
              at = λ w (new, ours) u kept.
                  (new, ours, saved_ok entity h.name (λ _. Unit) ds ours h w kept);
            })
            λ _. record {
              at = λ w (new, ours, there) printed _.
                  let now =
                    (load-Keeps entity h.name (λ o. o ≡ some h) ds ours h.name).at w there in
                  (h, new, rw (← name-new_host t project f h new) now);
            }
