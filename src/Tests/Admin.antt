-- ===== src/Tests/Admin.antt =====
-- The commands of cmd/epoxy_admin.
use epoxy.Base.{
  Str, ascii, ◌==◌, ◌≡◌, refl, Bool, true, false, some, List, [], ◌∷◌, ◌++◌, here, later, Error,
  Outcome, ok, Result, arith, eq_iff,
}
use epoxy.Base.Dict.{Dict, lookup, insert}
use epoxy.Base.Exec.{◌>>=◌}
use epoxy.Base.Fallible
use epoxy.Go.Strings.{contains, has_prefix}
use epoxy.Storage.Host.{Host, stage1_ipxe, stage1_json, stage2, stage3}
use epoxy.Storage.Datastore.{new_datastore_config, name_key, load, save, list}
use epoxy.Admin.Tools.{SiteMachine, Tools, fmt_url, connect}
use epoxy.Admin.Create.{run_create}
use epoxy.Admin.Create.Record.{new_host}
use epoxy.Admin.Sync.{is_hostname_in_datastore, images_version, sync_machines, run_sync}
use epoxy.Admin.Sync.Records.{Added, run_sync_adds}
use epoxy.Admin.Update.{update_host, update_hosts, run_update}
use epoxy.Admin.Update.Record.{
  UpdateFlags, update_defaults, update_url, set_stage, set_sequence, handle_update,
}
use epoxy.Admin.Update.Records.{run_update_updates}
use epoxy.Admin.Update.Unasked.{IsUnasked, handle_update-IsUnasked}
use epoxy.Admin.Main.{Flags, Found, Command, update_cmd, execute}
use epoxy.Admin.Main.Frame.{Names, execute_keeps}
use epoxy.Admin.Store.{IsAdministered, stored_in, IsKeyedIn}
use epoxy.Tests.Entities.{Records, view, client, client-IsDatastore}
use epoxy.Tests.Backend.{host}

abbrev project : Str
project = ascii "mlab-sandbox"

abbrev machine1 : SiteMachine
machine1 = record { hostname = ascii "mlab1"; ipv4 = ascii "192.0.2.1"; project = project }

abbrev machine2 : SiteMachine
machine2 = record { hostname = ascii "mlab2"; ipv4 = ascii "192.0.2.2"; project = project }

abbrev machine3 : SiteMachine
machine3 = record { hostname = ascii "mlab3"; ipv4 = ascii "192.0.2.3"; project = ascii "mlab-oti" }

abbrev site : List SiteMachine
site = machine1 ∷ machine2 ∷ machine3 ∷ []

abbrev tools : Tools Records
tools = record {
  sprintf = λ format name. format ++ name;
  parse_url = λ url. ok tt;
  compile = λ pattern. ok (λ name. pattern == name);
  new_client = λ name w. (ok client, w);
  machines = λ name w. (ok site, w);
  latest_release = λ w. (ok (ascii "v1.0"), w);
}

tools-IsAdministered : IsAdministered view tools
tools-IsAdministered = record {
  client_keeps = λ name w. refl;
  client_laws = λ name w c e. let same : client ≡ c = cc in rw (← same) client-IsDatastore;
  machines_keep = λ name w. refl;
  release_keeps = λ w. refl;
}

abbrev known : Host
known = record host { name = ascii "mlab1" }

abbrev before : Records
before = (ascii "mlab1", known) ∷ []

before-IsKeyedIn : IsKeyedIn view before
unfolding lookup
before-IsKeyedIn n h e = ground (arith, eq_iff (ascii "mlab1") n)

run_sync_adds_example :
    Added view tools project before site
      (ascii "mlab2")
      (stored_in view (run_sync tools project before).1 (ascii "mlab2"))
unfolding lookup ascii ◌==◌ run_sync connect list ◌>>=◌ is_hostname_in_datastore sync_machines
    run_create new_host fmt_url contains Fallible.◌>>=◌ load save name_key new_datastore_config
    insert images_version
run_sync_adds_example =
    run_sync_adds view tools tools-IsAdministered project before site machine2 before-IsKeyedIn refl
      (later machine1 _ (here (machine3 ∷ []))) refl refl

-- update --hostname mlab1 --address 192.0.2.9
abbrev address_flags : UpdateFlags
address_flags = record update_defaults { hostname = ascii "mlab1"; address = ascii "192.0.2.9" }

compiled :
    (one other : Str → Bool)
    → ◌≡◌ {A = Outcome Error (Str → Bool)} (ok one) (ok other)
    → one (ascii "mlab2") ≡ false
    → other (ascii "mlab2") ≡ false
compiled one other e missed = let same : one ≡ other = cc in rw (← same) missed

abbrev two : Records
two = (ascii "mlab2", record host { name = ascii "mlab2" }) ∷ before

-- What cobra finds in the arguments `update --hostname mlab1 --address 192.0.2.9`.
abbrev find_update : Flags → List Str → Result Found
find_update flags args = ok (some (flags.project, update_cmd address_flags))

address_flags-unnamed :
    (c : Command) → ◌≡◌ {A = Command} (update_cmd address_flags) c → ¬ Names tools c (ascii "mlab2")
unfolding ascii ◌==◌
address_flags-unnamed c same =
    rw (← same) λ (matches, e, hit). let missed = compiled _ matches e refl in cc

execute_keeps_example :
    stored_in view (execute tools find_update [] two).1 (ascii "mlab2")
    ≡ some (record host { name = ascii "mlab2" })
unfolding lookup ascii ◌==◌
execute_keeps_example =
    execute_keeps view tools tools-IsAdministered find_update [] two (ascii "mlab2")
      (record host { name = ascii "mlab2" }) refl refl λ name c e. address_flags-unnamed c cc

abbrev urls : Dict Str
urls =
    (stage1_ipxe, ascii "https://example.com/stage1to2.ipxe")
    ∷ (stage1_json, ascii "https://example.com/stage1to2.json")
    ∷ (stage2, ascii "https://example.com/stage2to3.json")
    ∷ (stage3, ascii "https://example.com/stage3post.json")
    ∷ []

abbrev updating : Host
updating = record host { boot = urls; update = urls; update_enabled = true }

handle_update-IsUnasked_example : IsUnasked updating (record updating { update_enabled = false })
unfolding lookup ascii ◌==◌ handle_update set_sequence set_stage update_url fmt_url contains
    Fallible.◌>>=◌ insert has_prefix
handle_update-IsUnasked_example =
    handle_update-IsUnasked tools project (ascii "mlab1") updating
      (record updating { update_enabled = false }) refl

run_update_updates_example :
    (new : Host) × (handle_update tools project address_flags known ≡ ok new)
    × (stored_in view (run_update tools project address_flags before).1 known.name ≡ some new)
unfolding lookup ascii ◌==◌ run_update connect list ◌>>=◌ update_hosts update_host handle_update
    set_sequence set_stage update_url fmt_url contains Fallible.◌>>=◌ load save name_key
    new_datastore_config insert has_prefix
run_update_updates_example =
    run_update_updates view tools tools-IsAdministered project address_flags before
      (λ name. ascii "mlab1" == name) known before-IsKeyedIn refl refl refl refl
