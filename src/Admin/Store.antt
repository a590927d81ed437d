-- ===== src/Admin/Store.antt =====
-- cmd/epoxy_admin: what the commands do to the record under one name, over a Datastore with the
-- laws `IsDatastore`.
use epoxy.Base.{
  Str, ◌==◌, eq_iff, eq_refl, ◌≡◌, ◌⊎◌, inl, inr, refl, sym, ◌∙◌, ap, Option, some, Error, Outcome,
  ok, err, List, Listed, if◌then◌else◌, arith, Bool-cases,
}
use epoxy.Base.Exec.{Exec, Keeps, Keeps-bind, Keeps-pure, bind-ok}
use epoxy.Storage.Host.{Host}
use epoxy.Storage.Datastore.{
  Key, DatastoreClient, DatastoreConfig, entity_kind, epoxy_namespace, new_datastore_config,
  name_key, load, save, list,
}
use epoxy.Storage.Datastore.Laws.{
  IsDatastore, stored_by, load_keeps_lem, load_found_lem, save_ok_lem, save_err_lem, list_finds_lem,
  list_found_lem,
}
use epoxy.Admin.Tools.{Tools, connect}

-- A client that is made has the laws of a Datastore, and the other services do not touch it.
pub record IsAdministered {W : Type 0} (entity : W → Key → Option Host) (t : Tools W) : Type 0 where
  pub client_keeps : (project : Str) (w : W) → entity (t.new_client project w).1 ≡ entity w
  pub client_laws :
      (project : Str) (w : W) (client : DatastoreClient W)
      → (t.new_client project w).0 ≡ ok client
      → IsDatastore entity client
  pub machines_keep : (project : Str) (w : W) → entity (t.machines project w).1 ≡ entity w
  pub release_keeps : (w : W) → entity (t.latest_release w).1 ≡ entity w

-- The record of a host, under its name.
abbrev pub host_key : Str → Key
host_key name = record { kind = entity_kind; name = name; namespace = epoxy_namespace }

abbrev pub stored_in : {W : Type 0} → (W → Key → Option Host) → W → Str → Option Host
stored_in entity w name = entity w (host_key name)

-- What `connect` gives.
pub record IsOurs {W : Type 0} (entity : W → Key → Option Host) (ds : DatastoreConfig W)
    : Type 0 where
  pub laws : IsDatastore entity ds.client
  pub names : (n : Str) → name_key ds n ≡ host_key n

module _ {W : Type 0} (entity : W → Key → Option Host) (t : Tools W)
    (laws : IsAdministered entity t) (project : Str) where
  pub connect-IsOurs :
      (w : W) (ds : DatastoreConfig W) → (connect t project w).0 ≡ ok ds → IsOurs entity ds
  unfolding connect new_datastore_config name_key
  connect-IsOurs w ds e =
      let (client, made, rest) = bind-ok (t.new_client project) _ w e in
      let same : new_datastore_config client ≡ ds = ground arith in
      rw (← same) (record { laws = laws.client_laws project w client made; names = λ n. refl })

  pub connect-keeps : (w : W) → entity (connect t project w).1 ≡ entity w
  unfolding connect
  connect-keeps w =
      let block : Keeps (λ w'. entity w' ≡ entity w) (connect t project) =
        Keeps-bind (t.new_client project) _
          (record { at = λ w' same. laws.client_keeps project w' ∙ same }) (λ _. Keeps-pure _) in
      block.at w refl

-- A property of the record under the name `n`.
module _ {W : Type 0} (entity : W → Key → Option Host) (n : Str) (R : Option Host → Type 0) where
  abbrev pub Holds : W → Type 0
  Holds w = R (stored_in entity w n)

  pub keeping-Keeps :
      {A : Type 0} (m : Exec W Error A) → ((w : W) → entity (m w).1 ≡ entity w) → Keeps Holds m
  keeping-Keeps m same = record { at = λ w h. rw (same w) h }

  module _ (ds : DatastoreConfig W) (ours : IsOurs entity ds) where
    stored_same : (w : W) (j : Str) → stored_by entity ds w j ≡ stored_in entity w j
    stored_same w j = ap (entity w) (ours.names j)

    pub load-Keeps : (name : Str) → Keeps Holds (load ds name)
    unfolding load
    load-Keeps name = keeping-Keeps _ (λ w. ours.laws.get_keeps _ w)

    pub list-Keeps : Keeps Holds (list ds)
    unfolding list
    list-Keeps = keeping-Keeps _ (λ w. ours.laws.get_all_keeps _ w)

    saved :
        (h : Host) (w : W) (r : Outcome Error (Unit {0}))
        → (save ds h w).0 ≡ r
        → (stored_in entity (save ds h w).1 n ≡ stored_in entity w n)
          ⊎ (stored_in entity (save ds h w).1 n
              ≡ (if h.name == n then some h else stored_in entity w n))
    saved h w (ok u) e = inr (simp (← stored_same) (save_ok_lem entity ds ours.laws h w n e))
    saved h w (err x) e = simp (← stored_same) (save_err_lem entity ds ours.laws h w x n e)

    pub saved_ok :
        (h : Host) (w : W)
        → (save ds h w).0 ≡ ok tt
        → stored_in entity (save ds h w).1 h.name ≡ some h
    saved_ok h w e =
        sym (stored_same (save ds h w).1 h.name)
        ∙ save_ok_lem entity ds ours.laws h w h.name e
        ∙ simp eq_refl

    pub save-Keeps : (h : Host) → (h.name ≡ n → R (some h)) → Keeps Holds (save ds h)
    save-Keeps h new = record {
      at = λ w held. elim (saved h w (save ds h w).0 refl) [
        | inl same ↦ rw same held
        | inr put ↦ elim (Bool-cases (h.name == n)) [
          | inl e ↦ rw (put, e) (new ((eq_iff h.name n).0 e))
          | inr e ↦ rw (put, e) held
        ]
      ];
    }

    -- The record that a load has returned is the one that is stored.
    pub load_found :
        (name : Str) (w : W) (h : Host)
        → (load ds name w).0 ≡ ok h
        → stored_in entity (load ds name w).1 name ≡ some h
    load_found name w h e =
        sym (stored_same (load ds name w).1 name)
        ∙ ap (λ view. view name) (load_keeps_lem entity ds ours.laws name w)
        ∙ load_found_lem entity ds ours.laws name w h e

-- Each record is stored under its own name.
abbrev pub IsKeyedIn : {W : Type 0} → (W → Key → Option Host) → W → Type 0
IsKeyedIn entity w = (n : Str) (h : Host) → stored_in entity w n ≡ some h → h.name ≡ n

-- A listed record is the one stored under its name.
module _ {W : Type 0} (entity : W → Key → Option Host) (ds : DatastoreConfig W)
    (ours : IsOurs entity ds) where
  pub listed_stored :
      (w : W) (hosts : List Host) (h : Host)
      → IsKeyedIn entity w
      → (list ds w).0 ≡ ok hosts
      → Listed h hosts
      → stored_in entity w h.name ≡ some h
  listed_stored w hosts h keyed all listed =
      let (k, found) = list_found_lem entity ds ours.laws w hosts all h listed in
      let there : stored_in entity w k ≡ some h =
        sym (stored_same entity k (λ _. Unit) ds ours w k) ∙ found in
      ap (stored_in entity w) (keyed k h there) ∙ there

  pub stored_listed :
      (w : W) (hosts : List Host) (n : Str) (h : Host)
      → (list ds w).0 ≡ ok hosts
      → stored_in entity w n ≡ some h
      → Listed h hosts
  stored_listed w hosts n h all there =
      list_finds_lem entity ds ours.laws w hosts all n h
        (stored_same entity n (λ _. Unit) ds ours w n ∙ there)
