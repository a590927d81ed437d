-- ===== src/Admin/Create.antt =====
-- cmd/epoxy_admin/command/create.go: a Host record is made and stored.
pub mod Record
pub mod Laws
use epoxy.Base.{Str, Error}
use epoxy.Base.Exec.{Exec, ◌>>=◌, ◌>>◌, pure, lift}
use epoxy.Storage.Host.{Host}
use epoxy.Storage.Datastore.{load, save}
use epoxy.Admin.Tools.{Tools, connect}
use epoxy.Admin.Create.Record.{CreateFlags, new_host}

module _ {W : Type 0} (t : Tools W) (project : Str) where
  -- The stored record is loaded again, to be printed.
  unfoldable pub run_create : CreateFlags → Exec W Error Host
  run_create f = do
    ds ← connect t project
    h ← lift (new_host t project f)
    save ds h
    load ds h.name
