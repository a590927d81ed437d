-- ===== src/Admin/Sync/Frame.antt =====
-- cmd/epoxy_admin/command/sync.go: the records that a synchronisation does not touch.
use epoxy.Base.{Str, ◌==◌, ◌≡◌, Option, some, true, false, not, ascii}
use epoxy.Base.Exec.{Keeps, Keeps-bind, Keeps-bind_returned, Keeps-pure, Keeps-if}
use epoxy.Storage.Host.{Host}
use epoxy.Storage.Datastore.{Key, list}
use epoxy.Admin.Tools.{Tools, connect}
use epoxy.Admin.Sync.{is_hostname_in_datastore, images_version, run_sync}
use epoxy.Admin.Sync.Laws.{Listed-is_hostname_in_datastore, sync_machines-Keeps}
use epoxy.Admin.Store.{
  IsAdministered, stored_in, connect-IsOurs, connect-keeps, Holds, keeping-Keeps, list-Keeps,
  stored_listed,
}

module _ {W : Type 0} (entity : W → Key → Option Host) (t : Tools W)
    (laws : IsAdministered entity t) (project : Str) where
  images_version-Keeps :
      (n : Str) (R : Option Host → Type 0) → Keeps (Holds entity n R) (images_version t project)
  unfolding images_version ascii
  images_version-Keeps n R =
      Keeps-if (not (project == ascii "mlab-oti")) _ _ (λ _. Keeps-pure _)
        (λ _. keeping-Keeps entity n R _ laws.release_keeps)

  -- Whatever way a synchronisation ends, it leaves a record that was stored under its own name as it
  -- was.
  pub run_sync_keeps :
      (w : W) (n : Str) (h : Host)
      → stored_in entity w n ≡ some h
      → h.name ≡ n
      → stored_in entity (run_sync t project w).1 n ≡ some h
  unfolding run_sync
  run_sync_keeps w n h before name =
      let R : Option Host → Type 0 = λ o. o ≡ some h in
      let block : Keeps (Holds entity n R) (run_sync t project) =
        Keeps-bind (t.machines project) _ (keeping-Keeps entity n R _ (laws.machines_keep project))
          λ machines.
            Keeps-bind_returned (connect t project) _
              (keeping-Keeps entity n R _ (connect-keeps entity t laws project))
              λ ds w₁ _ made.
                let ours = connect-IsOurs entity t laws project w₁ ds made in
                Keeps-bind_returned (list ds) _ (list-Keeps entity n R ds ours)
                  λ entities w₂ there all.
                    let listed = stored_listed entity ds ours w₂ entities n h all there in
                    let present : is_hostname_in_datastore n entities ≡ true =
                      rw (← name) (Listed-is_hostname_in_datastore h entities listed) in
                    Keeps-bind (images_version t project) _ (images_version-Keeps n R) λ version.
                      sync_machines-Keeps entity t laws project _ entities n R machines
                        λ m _ _ absent same k _.
                          let absent' : is_hostname_in_datastore n entities ≡ false =
                            rw (← same) absent in
                          cc in
      block.at w before
