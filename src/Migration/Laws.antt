-- ===== src/Migration/Laws.antt =====
-- cmd/epoxy_update_dsentity/main.go: the records after a migration.
use epoxy.Base.{
  Str, ascii, ◌==◌, ◌++◌, ◌≡◌, ◌⊎◌, inl, inr, refl, ◌∙◌, ap, Option, some, List, [], ◌∷◌, Listed,
  here, later, ok,
}
use epoxy.Base.Exec.{◌>>=◌, Keeps}
use epoxy.Base.Dict.{Dict, lookup}
use epoxy.Storage.Host.{Host, stage1_ipxe, stage1_json, stage2, stage3}
use epoxy.Storage.Datastore.{
  Key, Query, DatastoreClient, DatastoreConfig, new_datastore_config, name_key, save,
}
use epoxy.Storage.Datastore.Laws.{IsDatastore}
use epoxy.Migration.{
  OldSequence, OldHost, translate_sequence, OldDatastore, old_list, migrated, save_all, migrate,
}
use epoxy.Admin.Store.{stored_in, host_key, IsOurs, Holds, save-Keeps, saved_ok}

-- A client that is made has the laws of a Datastore; a listing does not change it.
pub record IsMigratable {W : Type 0} (entity : W → Key → Option Host) (old : OldDatastore W)
    : Type 0 where
  pub client_keeps : (project : Str) (w : W) → entity (old.new_client project w).1 ≡ entity w
  pub client_laws :
      (project : Str) (w : W) (client : DatastoreClient W)
      → (old.new_client project w).0 ≡ ok client
      → IsDatastore entity client
  pub list_keeps :
      (client : DatastoreClient W) (q : Query) (w : W)
      → entity (old.get_all client q w).1 ≡ entity w

module _ {W : Type 0} (entity : W → Key → Option Host) (project : Str) where
  ours_of :
      (client : DatastoreClient W)
      → IsDatastore entity client
      → IsOurs entity (new_datastore_config client)
  unfolding new_datastore_config name_key
  ours_of client laws = record { laws = laws; names = λ n. refl }

  module _ (ds : DatastoreConfig W) (ours : IsOurs entity ds) (n : Str)
      (R : Option Host → Type 0) where
    save_all-Keeps :
        (hosts : List OldHost)
        → ((old : OldHost) → Listed old hosts → old.name ≡ n → R (some (migrated project old)))
        → Keeps (Holds entity n R) (save_all project ds hosts)
    unfolding save_all migrated
    save_all-Keeps [] new = record { at = λ w held. held }
    save_all-Keeps (old ∷ hosts) new =
        let first = save-Keeps entity n R ds ours (migrated project old) (new old (here hosts)) in
        let rest = save_all-Keeps hosts (λ k listed. new k (later old hosts listed)) in
        record { at = λ w held. rest.at _ (first.at w held) }

  -- The migrated record is stored if the Save of it has succeeded.
  save_all_stores :
      (ds : DatastoreConfig W) (ours : IsOurs entity ds) (R : Option Host → Type 0) (old : OldHost)
      (hosts : List OldHost)
      → ((w : W) → (save ds (migrated project old) w).0 ≡ ok tt)
      → Listed old hosts
      → ((k : OldHost) → Listed k hosts → k.name ≡ old.name → R (some (migrated project k)))
      → (w : W) → R (stored_in entity (save_all project ds hosts w).1 old.name)
  unfolding save_all migrated
  save_all_stores ds ours R old _ saves (here hosts) new w =
      let there = saved_ok entity old.name R ds ours (migrated project old) w (saves w) in
      (save_all-Keeps ds ours old.name R hosts (λ k listed. new k (later old hosts listed))).at _
        (rw there (new old (here hosts) refl))
  save_all_stores ds ours R old _ saves (later x hosts listed) new w =
      save_all_stores ds ours R old hosts saves listed (λ k in_rest. new k (later x hosts in_rest))
        _

-- The boot sequence of the new schema for one of the old: stage1 is served from the storage of the
-- project, for the given image, and stage2 and stage3 keep their URLs.
pub record IsSequence (project image : Str) (old : OldSequence) (new : Dict Str) : Type 0 where
  pub ipxe :
      lookup stage1_ipxe new
      ≡ some (
          ascii "https://epoxy-boot-api."
          ++ (project
              ++ (ascii ".measurementlab.net:4430/v1/storage/"
                  ++ (image ++ ascii "/stage1to2.ipxe"))))
  pub json :
      lookup stage1_json new
      ≡ some (
          ascii "https://storage.googleapis.com/epoxy-"
          ++ (project ++ (ascii "/" ++ (image ++ ascii "/stage1to2.json"))))
  pub second : lookup stage2 new ≡ some old.stage2_chain_url
  pub third : lookup stage3 new ≡ some old.stage3_chain_url

-- The record of the new schema for one of the old.
pub record IsTranslated (project : Str) (old : OldHost) (new : Host) : Type 0 where
  pub name : new.name ≡ old.name
  pub address : new.ipv4_addr ≡ old.ipv4_addr
  pub boot : IsSequence project (ascii "stage3_ubuntu") old.boot new.boot
  pub update : IsSequence project (ascii "stage3_mlxupdate") old.update new.update
  pub enabled : new.update_enabled ≡ old.update_enabled
  pub extensions : new.extensions ≡ old.extensions
  pub session_ids : new.current_session_ids ≡ old.current_session_ids
  pub creation : new.last_session_creation ≡ old.last_session_creation
  pub report : new.last_report ≡ old.last_report
  pub success : new.last_success ≡ old.last_success
  pub information : new.collected_information ≡ old.collected_information

translate_sequence-IsSequence :
    (project image : Str) (old : OldSequence)
    → IsSequence project image old (translate_sequence project old image)
unfolding translate_sequence lookup ◌==◌ ascii
translate_sequence-IsSequence project image old = record {
  ipxe = refl;
  json = refl;
  second = refl;
  third = refl;
}

migrated-IsTranslated :
    (project : Str) (old : OldHost) → IsTranslated project old (migrated project old)
unfolding migrated
migrated-IsTranslated project old = record {
  name = refl;
  address = refl;
  boot = translate_sequence-IsSequence project (ascii "stage3_ubuntu") old.boot;
  update = translate_sequence-IsSequence project (ascii "stage3_mlxupdate") old.update;
  enabled = refl;
  extensions = refl;
  session_ids = refl;
  creation = refl;
  report = refl;
  success = refl;
  information = refl;
}

-- The record of an old host of the list with that name, in the new schema.
abbrev pub IsMigrated : Str → List OldHost → Str → Option Host → Type 0
IsMigrated project hosts n o =
    (old : OldHost) × (new : Host) × Listed old hosts
    × (old.name ≡ n)
    × IsTranslated project old new
    × (o ≡ some new)

module _ {W : Type 0} (entity : W → Key → Option Host) (old : OldDatastore W)
    (laws : IsMigratable entity old) (project : Str) where
  module _ (w : W) (client : DatastoreClient W) (hosts : List OldHost)
      (made : (old.new_client project w).0 ≡ ok client)
      (listing : (old_list old client (old.new_client project w).1).0 ≡ ok hosts) where
    abbrev listed_world : W
    listed_world = (old_list old client (old.new_client project w).1).1

    listed_same : (n : Str) → stored_in entity listed_world n ≡ stored_in entity w n
    unfolding old_list
    listed_same n =
        ap (λ v. v (host_key n)) (laws.list_keeps client _ _ ∙ laws.client_keeps project w)

    ours : IsOurs entity (new_datastore_config client)
    ours = ours_of entity project client (laws.client_laws project w client made)

    migrate-save_all :
        (migrate project old w).1
        ≡ (save_all project (new_datastore_config client) hosts listed_world).1
    unfolding migrate ◌>>=◌
    migrate-save_all = rw (made, listing) refl

    -- Whatever Save calls fail, the record of each name is after a migration the one that was, or the
    -- record of a listed old host of that name in the new schema.
    migrate_keeps :
        (n : Str)
        → (stored_in entity (migrate project old w).1 n ≡ stored_in entity w n)
          ⊎ IsMigrated project hosts n (stored_in entity (migrate project old w).1 n)
    migrate_keeps n =
        let R : Option Host → Type 0 =
          λ o. (o ≡ stored_in entity w n) ⊎ IsMigrated project hosts n o in
        let kept =
          save_all-Keeps entity project (new_datastore_config client) ours n R hosts
            λ k listed same.
              inr (k, migrated project k, listed, same, migrated-IsTranslated project k, refl) in
        rw migrate-save_all (kept.at listed_world (inl (listed_same n)))

    -- If the Saves of its record succeed, each listed old host has after a migration a record in the
    -- new schema under its name, made of a listed old host of that name, whatever other Saves fail:
    -- the same values, and for each boot sequence stage1 URLs of the project and of the image of that
    -- sequence, with the old stage2 and stage3 URLs. The client is made and the old hosts are listed.
    pub migrate_migrates :
        (k : OldHost)
        → Listed k hosts
        → ((v : W) → (save (new_datastore_config client) (migrated project k) v).0 ≡ ok tt)
        → IsMigrated project hosts k.name (stored_in entity (migrate project old w).1 k.name)
    migrate_migrates k listed saves =
        let R = IsMigrated project hosts k.name in
        rw migrate-save_all (
          save_all_stores entity project (new_datastore_config client) ours R k hosts saves listed
            (λ other in_list same. (
              other,
              migrated project other,
              in_list,
              same,
              migrated-IsTranslated project other,
              refl,
            ))
            listed_world)
