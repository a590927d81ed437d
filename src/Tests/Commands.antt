-- ===== src/Tests/Commands.antt =====
-- The start of the server, and a migration.
use epoxy.Base.{Str, ascii, ◌==◌, ◌≡◌, refl, true, [], ◌∷◌, ok, here}
use epoxy.Base.Dict.{Dict, lookup}
use epoxy.Startup.{Services, main}
use epoxy.Startup.Laws.{IsAvailable, starting, world_after, main_fares}
use epoxy.Migration.{OldSequence, OldHost, OldDatastore, old_list, migrated, migrate}
use epoxy.Storage.Datastore.{new_datastore_config, save}
use epoxy.Base.Exec.{◌>>=◌}
use epoxy.Migration.Laws.{IsMigratable, IsMigrated, migrate_migrates}
use epoxy.Admin.Store.{stored_in}
use epoxy.Tests.Entities.{Records, view, client, client-IsDatastore}
use epoxy.Tests.Backend.{host}

abbrev services : Services Records
services = record {
  new_client = λ project w. (ok client, w);
  register = λ col w. w;
  must_serve_metrics = λ addr w. (ok tt, w);
  listen_async = λ listener env w. w;
}

abbrev variables : Dict Str
variables =
    (ascii "GCLOUD_PROJECT", ascii "mlab-sandbox") ∷ (ascii "GAE_SERVICE", ascii "epoxy") ∷ []

services-IsAvailable : IsAvailable services
services-IsAvailable = record {
  client_made = λ project w. (client, refl);
  metrics_served = λ addr w. refl;
}

main_fares_example :
    main services variables []
    ≡ (starting variables, world_after services services-IsAvailable variables [])
main_fares_example = main_fares services services-IsAvailable variables []

main_tests : starting variables ≡ ok tt
unfolding lookup ascii ◌==◌
main_tests = refl

abbrev sequence : OldSequence
sequence = record {
  stage1_chain_url = ascii "https://example.net/1";
  stage2_chain_url = ascii "https://example.net/2";
  stage3_chain_url = ascii "https://example.net/3";
}

abbrev old_host : OldHost
old_host = record {
  name = ascii "mlab1";
  ipv4_addr = ascii "192.0.2.1";
  boot = sequence;
  update = sequence;
  update_enabled = true;
  extensions = [];
  current_session_ids = host.current_session_ids;
  last_session_creation = 0;
  last_report = 0;
  last_success = 0;
  collected_information = [];
}

abbrev old : OldDatastore Records
old = record {
  new_client = λ project w. (ok client, w);
  get_all = λ c q w. (ok (old_host ∷ []), w);
}

old-IsMigratable : IsMigratable view old
old-IsMigratable = record {
  client_keeps = λ project w. refl;
  client_laws = λ project w c e. let same : client ≡ c = cc in rw (← same) client-IsDatastore;
  list_keeps = λ c q w. refl;
}

abbrev project : Str
project = ascii "mlab-sandbox"

saves_ok :
    (w : Records) → (save (new_datastore_config client) (migrated project old_host) w).0 ≡ ok tt
unfolding save new_datastore_config ◌>>=◌ ◌==◌ ascii
saves_ok w = refl

migrate_migrates_example :
    IsMigrated project
      (old_host ∷ [])
      (ascii "mlab1")
      (stored_in view (migrate project old []).1 (ascii "mlab1"))
unfolding old_list
migrate_migrates_example =
    migrate_migrates view old old-IsMigratable project [] client (old_host ∷ []) refl refl old_host
      (here []) saves_ok
