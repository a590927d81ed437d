-- ===== src/Admin/Sync/Records.antt =====
-- cmd/epoxy_admin/command/sync.go: the records after a synchronisation.
use epoxy.Base.{
  Str, ◌==◌, ◌≡◌, ◌⊎◌, inl, inr, refl, ◌∙◌, ap, Option, some, true, not, ok, List, Listed,
  Bool-cases, ascii,
}
use epoxy.Base.Exec.{Keeps, Keeps-pure, Keeps-if}
use epoxy.Base.Exec.Gives.{Gives, Gives-bind, Gives-Keeps, Gives-assume}
use epoxy.Storage.Host.{Host}
use epoxy.Storage.Datastore.{Key, DatastoreConfig, list}
use epoxy.Admin.Tools.{SiteMachine, Tools, connect}
use epoxy.Admin.Create.Record.{create_defaults, new_host}
use epoxy.Admin.Create.Laws.{name-new_host}
use epoxy.Admin.Sync.{is_hostname_in_datastore, images_version, sync_machines, run_sync}
use epoxy.Admin.Sync.Laws.{
  is_hostname_in_datastore-Listed, machine_flags, Creates, sync_machines-Keeps, sync_machines-Gives,
}
use epoxy.Admin.Store.{
  IsAdministered, host_key, stored_in, IsOurs, connect-IsOurs, connect-keeps, Holds, IsKeyedIn,
  listed_stored,
}

-- `h` is what `create` makes, at its defaults and for some images version, of a machine that siteinfo
-- lists in the project under that hostname.
pub record IsCreated {W : Type 0} (t : Tools W) (project : Str) (machines : List SiteMachine)
    (h : Host) : Type 0 where
  pub machine : SiteMachine
  pub listed : Listed machine machines
  pub in_project : machine.project ≡ project
  pub version : Str
  pub created :
      new_host t project
        (machine_flags (record create_defaults { images_version = version }) machine)
      ≡ ok h

module _ {W : Type 0} (entity : W → Key → Option Host) (t : Tools W) (project : Str) where
  -- What the record under `n` may be after a synchronisation with these machines.
  abbrev pub Added : W → List SiteMachine → Str → Option Host → Type 0
  Added before machines n o =
      (h : Host) × (o ≡ some h)
      × ((stored_in entity before n ≡ some h) ⊎ (IsCreated t project machines h × (h.name ≡ n)))

module _ {W : Type 0} (entity : W → Key → Option Host) (t : Tools W)
    (laws : IsAdministered entity t) (project : Str) where
  images_version-same :
      (before : W) → Keeps (λ w. entity w ≡ entity before) (images_version t project)
  unfolding images_version ascii
  images_version-same before =
      Keeps-if (not (project == ascii "mlab-oti")) _ _ (λ _. Keeps-pure _)
        (λ _. record { at = λ w same. laws.release_keeps w ∙ same })

  module _ (before : W) (machines : List SiteMachine) (m : SiteMachine) where
    created-Added :
        (version : Str) (entities : List Host)
        → Creates entity t laws project
            (record create_defaults { images_version = version })
            entities
            m.hostname
            (Added entity t project before machines m.hostname)
            machines
    created-Added version entities k listed in_project absent same h made =
        let made_of : IsCreated t project machines h = record {
          machine = k;
          listed = listed;
          in_project = in_project;
          version = version;
          created = made;
        } in
        (h, refl, inr (made_of, name-new_host t project _ h made ∙ same))

    loop-Gives :
        (version : Str) (entities : List Host)
        → Listed m machines
        → m.project ≡ project
        → (is_hostname_in_datastore m.hostname entities ≡ true
            → (h : Host) × (stored_in entity before m.hostname ≡ some h))
        → Gives
            (λ w. entity w ≡ entity before)
            (sync_machines t project
              (record create_defaults { images_version = version })
              entities
              machines)
            (λ _. Holds entity m.hostname (Added entity t project before machines m.hostname))
    loop-Gives version entities listed in_project present =
        let new = created-Added version entities in
        elim (Bool-cases (is_hostname_in_datastore m.hostname entities)) [
          | inl found ↦
              let (h, there) = present found in
              record {
                at = λ w same u _.
                    let now : stored_in entity w m.hostname ≡ some h =
                      ap (λ view. view (host_key m.hostname)) same ∙ there in
                    (sync_machines-Keeps entity t laws project _ entities m.hostname
                        (Added entity t project before machines m.hostname) machines new).at
                      w (h, now, inl there);
              }
          | inr absent ↦ record {
            at = λ w _.
                (sync_machines-Gives entity t laws project _ entities m
                    (Added entity t project before machines m.hostname) machines listed in_project
                    absent new).at
                  w tt;
          }
        ]

    listed_before :
        (ds : DatastoreConfig W) (w : W) (entities : List Host)
        → IsOurs entity ds
        → entity w ≡ entity before
        → (list ds w).0 ≡ ok entities
        → IsKeyedIn entity before
        → is_hostname_in_datastore m.hostname entities ≡ true
        → (h : Host) × (stored_in entity before m.hostname ≡ some h)
    listed_before ds w entities ours view all keyed found =
        let (h, in_list, name) = is_hostname_in_datastore-Listed m.hostname entities found in
        let keyed' : IsKeyedIn entity w = rw view keyed in
        let there : stored_in entity before h.name ≡ some h =
          rw (← view) (listed_stored entity ds ours w entities h keyed' all in_list) in
        (h, rw (← name) there)

    -- After a synchronisation that succeeds, each machine that siteinfo lists in the project has a
    -- record under its hostname: the one it had, or one that `create` makes of a machine of the list
    -- with that hostname. Before, records are stored under their own names.
    pub run_sync_adds :
        IsKeyedIn entity before
        → (t.machines project before).0 ≡ ok machines
        → Listed m machines
        → m.project ≡ project
        → (run_sync t project before).0 ≡ ok tt
        → Added entity t project before machines m.hostname
            (stored_in entity (run_sync t project before).1 m.hostname)
    unfolding run_sync list
    run_sync_adds keyed listing listed in_project done =
        let block : Gives (λ w. w ≡ before) (run_sync t project)
            (λ _. Holds entity m.hostname (Added entity t project before machines m.hostname)) =
          Gives-bind {Q = λ ms w. (machines ≡ ms) × (entity w ≡ entity before)} (t.machines project)
            _
            (record {
              at = λ w same ms e.
                  let e' : (t.machines project before).0 ≡ ok ms = rw (← same) e in
                  (cc, laws.machines_keep project w ∙ ap entity same);
            })
            λ ms. Gives-assume λ same_list.
              Gives-bind {Q = λ ds w. IsOurs entity ds × (entity w ≡ entity before)}
                (connect t project) _
                (record {
                  at = λ w view ds made. (
                    connect-IsOurs entity t laws project w ds made,
                    connect-keeps entity t laws project w ∙ view,
                  );
                })
                λ ds. Gives-assume λ ours.
                  Gives-bind
                    {Q = λ entities w.
                      (is_hostname_in_datastore m.hostname entities ≡ true
                        → (h : Host) × (stored_in entity before m.hostname ≡ some h))
                      × (entity w ≡ entity before)}
                    (list ds) _
                    (record {
                      at = λ w view entities all. (
                        listed_before ds w entities ours view all keyed,
                        ours.laws.get_all_keeps _ w ∙ view,
                      );
                    })
                    λ entities. Gives-assume λ present.
                      Gives-bind {Q = λ _ w. entity w ≡ entity before} (images_version t project) _
                        (Gives-Keeps _ (images_version-same before))
                        λ version.
                          rw (← same_list)
                            (loop-Gives version entities listed in_project present) in
        block.at before refl tt done
