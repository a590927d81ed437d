-- ===== src/Migration.antt =====
-- cmd/epoxy_update_dsentity/main.go: the Host entities of the old schema are stored in the new one.
pub mod Laws
use epoxy.Base.{Str, ascii, Bool, List, [], ◌∷◌, ◌++◌, Error, Outcome, ok}
use epoxy.Base.Dict.{Dict}
use epoxy.Base.Exec.{Exec, ◌>>=◌, ◌>>◌, pure}
use epoxy.Storage.Host.{Host, SessionIds, Time, stage1_ipxe, stage1_json, stage2, stage3}
use epoxy.Storage.Datastore.{Query, DatastoreClient, DatastoreConfig, new_datastore_config, save}

pub record OldSequence : Type 0 where
  pub stage1_chain_url : Str
  pub stage2_chain_url : Str
  pub stage3_chain_url : Str

pub record OldHost : Type 0 where
  pub name : Str
  pub ipv4_addr : Str
  pub boot : OldSequence
  pub update : OldSequence
  pub update_enabled : Bool
  pub extensions : List Str
  pub current_session_ids : SessionIds
  pub last_session_creation : Time
  pub last_report : Time
  pub last_success : Time
  pub collected_information : Dict Str

-- translateSequence
unfoldable pub translate_sequence : Str → OldSequence → Str → Dict Str
translate_sequence project s stage =
    (
      stage1_ipxe,
      ascii "https://epoxy-boot-api."
          ++ (project
              ++ (ascii ".measurementlab.net:4430/v1/storage/"
                  ++ (stage ++ ascii "/stage1to2.ipxe"))),
    )
    ∷ (
      stage1_json,
      ascii "https://storage.googleapis.com/epoxy-"
          ++ (project ++ (ascii "/" ++ (stage ++ ascii "/stage1to2.json"))),
    )
    ∷ (stage2, s.stage2_chain_url)
    ∷ (stage3, s.stage3_chain_url)
    ∷ []

-- The literal in the loop of main. The old schema has no images version.
unfoldable pub migrated : Str → OldHost → Host
migrated project old = record {
  name = old.name;
  ipv4_addr = old.ipv4_addr;
  boot = translate_sequence project old.boot (ascii "stage3_ubuntu");
  update = translate_sequence project old.update (ascii "stage3_mlxupdate");
  images_version = [];
  update_enabled = old.update_enabled;
  extensions = old.extensions;
  current_session_ids = old.current_session_ids;
  last_session_creation = old.last_session_creation;
  last_report = old.last_report;
  last_success = old.last_success;
  collected_information = old.collected_information;
}

-- Package datastore: a client, and its GetAll into entities of the old schema.
pub record OldDatastore (W : Type 0) : Type 0 where
  pub new_client : Str → Exec W Error (DatastoreClient W)
  pub get_all : DatastoreClient W → Query → Exec W Error (List OldHost)

abbrev old_entity_kind : Str
old_entity_kind = ascii "Host"

abbrev old_namespace : Str
old_namespace = ascii "ePoxy"

unfoldable pub old_list :
    {W : Type 0} → OldDatastore W → DatastoreClient W → Exec W Error (List OldHost)
old_list old client =
    old.get_all client (record { kind = old_entity_kind; namespace = old_namespace })

module _ {W : Type 0} (project : Str) where
  -- What Save returns is dropped.
  unfoldable pub save_all : DatastoreConfig W → List OldHost → Exec W Error (Unit {0})
  save_all ds [] w = (ok tt, w)
  save_all ds (old ∷ hosts) w = save_all ds hosts (save ds (migrated project old) w).1

  unfoldable pub migrate : OldDatastore W → Exec W Error (Unit {0})
  migrate old = do
    client ← old.new_client project
    hosts ← old_list old client
    save_all (new_datastore_config client) hosts
