-- ===== src/Admin/Tools.antt =====
-- cmd/epoxy_admin/command/root.go and create.go: what the commands share. A command ends at the
-- first error that it gives to rtx.Must, which ends the process.
use epoxy.Base.{Str, ascii, Bool, List, Error, ok, err, Result, if◌then◌else◌}
use epoxy.Base.Exec.{Exec, ◌>>=◌, pure}
use epoxy.Go.Strings.{contains}
use epoxy.Storage.Datastore.{DatastoreClient, DatastoreConfig, new_datastore_config}

-- siteinfo.Machine
pub record SiteMachine : Type 0 where
  pub hostname : Str
  pub ipv4 : Str
  pub project : Str

-- Packages fmt (Sprintf with one string), net/url, regexp, datastore, siteinfo and github.
pub record Tools (W : Type 0) : Type 0 where
  pub sprintf : Str → Str → Str
  pub parse_url : Str → Result (Unit {0})
  pub compile : Str → Result (Str → Bool)
  pub new_client : Str → Exec W Error (DatastoreClient W)
  pub machines : Str → Exec W Error (List SiteMachine)
  pub latest_release : Exec W Error Str

abbrev pub parsed : Str → Result (Unit {0}) → Result Str
parsed url (ok u) = ok url
parsed url (err e) = err e

module _ {W : Type 0} (t : Tools W) (project : Str) where
  -- fmtURL
  unfoldable pub fmt_url : Str → Result Str
  unfolding contains
  fmt_url url =
      let full = if contains url (ascii "%s") then t.sprintf url project else url in
      parsed full (t.parse_url full)

  -- The first lines of each command.
  unfoldable pub connect : Exec W Error (DatastoreConfig W)
  connect = do client ← t.new_client project; pure (new_datastore_config client)
