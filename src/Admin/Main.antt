-- ===== src/Admin/Main.antt =====
-- cmd/epoxy_admin/main.go and command/root.go: the command line. What cobra makes of the arguments,
-- given the flags at their defaults, is a parameter.
pub mod Frame
use epoxy.Base.{Str, ascii, List, [], ◌++◌, Option, none, some, Error, Result}
use epoxy.Base.Exec.{Exec, ◌>>=◌, ◌>>◌, pure, lift}
use epoxy.Admin.Tools.{Tools}
use epoxy.Admin.Create.{run_create}
use epoxy.Admin.Create.Record.{CreateFlags, create_defaults}
use epoxy.Admin.Update.{run_update, run_list}
use epoxy.Admin.Update.Record.{UpdateFlags, update_defaults}
use epoxy.Admin.Sync.{run_sync}

-- The flag variables of the package.
pub record Flags : Type 0 where
  pub project : Str
  pub create : CreateFlags
  pub update : UpdateFlags
  pub list_hostname : Str
  pub siteinfo : Str

-- The default of --project.
abbrev project_default : Str
project_default = ascii "mlab-sandbox"

-- The default of --siteinfo, which is made before the arguments are read.
abbrev siteinfo_default : Str → Str
siteinfo_default project =
    ascii "https://siteinfo." ++ project ++ ascii ".measurementlab.net/v2/sites/projects.json"

-- The values that the `init` functions give the flags; that of root.go runs before that of sync.go.
abbrev pub flag_defaults : Flags
flag_defaults = record {
  project = project_default;
  create = create_defaults;
  update = update_defaults;
  list_hostname = [];
  siteinfo = siteinfo_default project_default;
}

-- The commands that the `init` functions add to rootCmd, with the flags of their own.
pub data Command : Type 0 where
  create_cmd : CreateFlags → Command
  delete_cmd : Command
  list_cmd : Str → Command
  sync_cmd : Str → Command
  update_cmd : UpdateFlags → Command

-- What cobra finds in the arguments: the project and the command; or nothing to run, as for --help.
abbrev pub Found : Type 0
Found = Option (Str × Command)

module _ {W : Type 0} (t : Tools W) where
  -- The Run of the command. That of `delete` only prints, and that of `sync` does not read --siteinfo.
  unfoldable pub run_command : Str → Command → Exec W Error (Unit {0})
  run_command project (create_cmd f) = do printed ← run_create t project f; pure tt
  run_command project delete_cmd = pure tt
  run_command project (list_cmd hostname) = do printed ← run_list t project hostname; pure tt
  run_command project (sync_cmd siteinfo) = run_sync t project
  run_command project (update_cmd f) = run_update t project f

  abbrev pub run_found : Found → Exec W Error (Unit {0})
  run_found none = pure tt
  run_found (some (project, command)) = run_command project command

  -- Execute
  unfoldable pub execute : (Flags → List Str → Result Found) → List Str → Exec W Error (Unit {0})
  execute parse args = do found ← lift (parse flag_defaults args); run_found found
