-- ===== src/Admin/Sync.antt =====
-- cmd/epoxy_admin/command/sync.go: records are created for the machines of siteinfo that have none.
pub mod Laws
pub mod Records
pub mod Frame
use epoxy.Base.{Str, ascii, ◌==◌, Bool, true, false, not, ◌||◌, List, [], ◌∷◌, Error, if◌then◌else◌}
use epoxy.Base.Exec.{Exec, ◌>>=◌, ◌>>◌, pure}
use epoxy.Storage.Host.{Host}
use epoxy.Storage.Datastore.{list}
use epoxy.Admin.Tools.{SiteMachine, Tools, connect}
use epoxy.Admin.Create.{run_create}
use epoxy.Admin.Create.Record.{CreateFlags, create_defaults}

-- isHostnameInDatastore
unfoldable pub is_hostname_in_datastore : Str → List Host → Bool
is_hostname_in_datastore hostname [] = false
is_hostname_in_datastore hostname (entity ∷ entities) =
    hostname == entity.name || is_hostname_in_datastore hostname entities

module _ {W : Type 0} (t : Tools W) (project : Str) where
  -- cfImagesVersion
  unfoldable pub images_version : Exec W Error Str
  unfolding ascii
  images_version =
      if not (project == ascii "mlab-oti") then pure (ascii "latest") else t.latest_release

  -- The loop over the machines; `entities` are those of before the loop.
  unfoldable pub sync_machines :
      CreateFlags → List Host → List SiteMachine → Exec W Error (Unit {0})
  sync_machines flags entities [] = pure tt
  sync_machines flags entities (m ∷ machines) =
      let later = sync_machines flags entities machines in
      if not (m.project == project)
      then later
      else if is_hostname_in_datastore m.hostname entities
      then later
      else do
        h ← run_create t project (record flags { hostname = m.hostname; address = m.ipv4 })
        later

  -- runSync, with the flags of `create` at their defaults.
  unfoldable pub run_sync : Exec W Error (Unit {0})
  run_sync = do
    machines ← t.machines project
    ds ← connect t project
    entities ← list ds
    version ← images_version
    sync_machines (record create_defaults { images_version = version }) entities machines
