-- ===== src/Admin/Update/Laws.antt =====
-- cmd/epoxy_admin/command/update.go: what the loop over the hosts does to the record of one name.
use epoxy.Base.{
  Str, ◌≡◌, refl, sym, ◌∙◌, Option, some, Bool, true, not, ok, List, [], ◌∷◌, Listed, here, later,
  arith,
}
use epoxy.Base.Fallible.{Returns, Returns-bind, Returns-ok}
use epoxy.Base.Exec.{lift, Keeps, Keeps-bind, Keeps-bind_returned, Keeps-lift, Keeps-pure, Keeps-if}
use epoxy.Base.Exec.Gives.{Gives, Gives-bind, Gives-lift, Gives-if}
use epoxy.Storage.Host.{Host}
use epoxy.Storage.Datastore.{Key, DatastoreConfig, save}
use epoxy.Admin.Tools.{Tools}
use epoxy.Admin.Update.{update_host, update_hosts}
use epoxy.Admin.Update.Record.{UpdateFlags, handle_update}
use epoxy.Admin.Store.{stored_in, IsOurs, Holds, load-Keeps, save-Keeps, saved_ok}

module _ {W : Type 0} (t : Tools W) (project : Str) (f : UpdateFlags) where
  handle_update-Returns :
      (h : Host) → Returns (λ (new : Host). new.name ≡ h.name) (handle_update t project f h)
  unfolding handle_update
  handle_update-Returns h = Returns-bind _ _ _ λ _. Returns-bind _ _ _ λ _. Returns-ok _ _ refl

  name-handle_update : (h new : Host) → handle_update t project f h ≡ ok new → new.name ≡ h.name
  name-handle_update h new e = (handle_update-Returns h).at new e

module _ {W : Type 0} (entity : W → Key → Option Host) (t : Tools W) (project : Str)
    (f : UpdateFlags) (ds : DatastoreConfig W) (ours : IsOurs entity ds) where
  update_host-Keeps :
      (n : Str) (R : Option Host → Type 0) (h : Host)
      → (h.name ≡ n → (new : Host) → handle_update t project f h ≡ ok new → R (some new))
      → Keeps (Holds entity n R) (update_host t project f ds h)
  unfolding update_host
  update_host-Keeps n R h updated =
      Keeps-bind_returned (lift (handle_update t project f h)) _ (Keeps-lift _) λ new _ _ e.
        Keeps-bind (save ds new) _
          (save-Keeps entity n R ds ours new
            (λ same. updated (sym (name-handle_update t project f h new e) ∙ same) new e))
          λ _. load-Keeps entity n R ds ours new.name

  update_host-Gives :
      (h : Host)
      → Gives
          (λ _. Unit)
          (update_host t project f ds h)
          (λ _ w.
            (new : Host) × (handle_update t project f h ≡ ok new)
            × (stored_in entity w h.name ≡ some new))
  unfolding update_host
  update_host-Gives h = Gives-bind (lift (handle_update t project f h)) _ (Gives-lift _) λ new.
      Gives-bind
        {Q = λ _ w.
          (handle_update t project f h ≡ ok new) × (stored_in entity w new.name ≡ some new)}
        (save ds new) _
        (record {
          at = λ w (e, _) u kept. (e, saved_ok entity new.name (λ _. Unit) ds ours new w kept);
        })
        λ _. record {
          at = λ w (e, there) printed _.
              let now =
                (load-Keeps entity new.name (λ o. o ≡ some new) ds ours new.name).at w there in
              (new, e, rw (← name-handle_update t project f h new e) now);
        }

  module _ (matches : Str → Bool) where
    -- The updated records of the hosts named `n` have the property.
    abbrev pub Updates : Str → (Option Host → Type 0) → List Host → Type 0
    Updates n R hosts =
        (h : Host)
        → Listed h hosts
        → matches h.name ≡ true
        → h.name ≡ n
        → (new : Host) → handle_update t project f h ≡ ok new
        → R (some new)

    pub update_hosts-Keeps :
        (n : Str) (R : Option Host → Type 0) (hosts : List Host)
        → Updates n R hosts
        → Keeps (Holds entity n R) (update_hosts t project f ds matches hosts)
    unfolding update_hosts
    update_hosts-Keeps n R [] updated = Keeps-pure tt
    update_hosts-Keeps n R (h ∷ hosts) updated =
        let rest = update_hosts-Keeps n R hosts (λ k listed. updated k (later h hosts listed)) in
        Keeps-if (not (matches h.name)) _ _ (λ _. rest)
          λ matched.
            Keeps-bind (update_host t project f ds h) _
              (update_host-Keeps n R h (updated h (here hosts) (ground arith))) λ _. rest

    pub update_hosts-Gives :
        (h : Host) (R : Option Host → Type 0) (hosts : List Host)
        → Listed h hosts
        → matches h.name ≡ true
        → Updates h.name R hosts
        → Gives (λ _. Unit) (update_hosts t project f ds matches hosts) (λ _. Holds entity h.name R)
    unfolding update_hosts
    update_hosts-Gives h R _ (here hosts) matched updated =
        Gives-if (not (matches h.name)) _ _ (λ e. ground arith)
          λ _. Gives-bind (update_host t project f ds h) _ (update_host-Gives h) λ _. record {
            at = λ w (new, e, there) u _.
                (update_hosts-Keeps h.name R hosts
                    (λ k listed. updated k (later h hosts listed))).at
                  w (rw there (updated h (here hosts) matched refl new e));
          }
    update_hosts-Gives h R _ (later x hosts listed) matched updated =
        let rest =
          update_hosts-Gives h R hosts listed matched
            (λ k in_rest. updated k (later x hosts in_rest)) in
        Gives-if (not (matches x.name)) _ _ (λ _. rest)
          λ _. Gives-bind (update_host t project f ds x) _ (record { at = λ _ _ _ _. tt }) λ _. rest
