-- ===== src/Admin/Update.antt =====
-- cmd/epoxy_admin/command/update.go and list.go: Host records by a pattern of their names.
pub mod Record
pub mod Laws
pub mod Listing
pub mod Records
pub mod Unasked
use epoxy.Base.{Str, Bool, not, List, [], ◌∷◌, Error, if◌then◌else◌}
use epoxy.Base.Exec.{Exec, ◌>>=◌, ◌>>◌, pure, lift}
use epoxy.Storage.Host.{Host}
use epoxy.Storage.Datastore.{DatastoreConfig, load, save, list}
use epoxy.Admin.Tools.{Tools, connect}
use epoxy.Admin.Update.Record.{UpdateFlags, handle_update}

-- The hosts that runList prints.
unfoldable pub matching : (Str → Bool) → List Host → List Host
matching matches [] = []
matching matches (h ∷ hosts) =
    let rest = matching matches hosts in if not (matches h.name) then rest else h ∷ rest

module _ {W : Type 0} (t : Tools W) (project : Str) where
  -- The body of the loop of runUpdate; the stored record is loaded again, to be printed.
  unfoldable pub update_host : UpdateFlags → DatastoreConfig W → Host → Exec W Error Host
  update_host f ds h = do new ← lift (handle_update t project f h); save ds new; load ds new.name

  unfoldable pub update_hosts :
      UpdateFlags → DatastoreConfig W → (Str → Bool) → List Host → Exec W Error (Unit {0})
  update_hosts f ds matches [] = pure tt
  update_hosts f ds matches (h ∷ hosts) =
      let later = update_hosts f ds matches hosts in
      if not (matches h.name) then later else do printed ← update_host f ds h; later

  unfoldable pub run_update : UpdateFlags → Exec W Error (Unit {0})
  run_update f = do
    ds ← connect t project
    hosts ← list ds
    matches ← lift (t.compile f.hostname)
    update_hosts f ds matches hosts

  unfoldable pub run_list : Str → Exec W Error (List Host)
  run_list pattern = do
    ds ← connect t project
    hosts ← list ds
    matches ← lift (t.compile pattern)
    pure (matching matches hosts)
