-- ===== src/Storage/Datastore/Laws.antt =====
-- storage/datastore.go over a Datastore client: one record under each name.
use epoxy.Base.{
  Str, ◌==◌, eq_iff, ◌≡◌, ◌⊎◌, Option, some, List, Error, ok, err, if◌then◌else◌, ◌&&◌, Bool, arith,
  ap, Listed,
}
use epoxy.Base.Exec.{◌>>=◌, bind-eq-ok}
use epoxy.Storage.Host.{Host}
use epoxy.Storage.Datastore.{
  Key, Query, DatastoreClient, DatastoreConfig, name_key, load, save, list,
}

abbrev pub same_key : Key → Key → Bool
same_key a b = (a.kind == b.kind) && (a.name == b.name) && (a.namespace == b.namespace)

-- What is assumed of a Datastore client, for a view `entity` of the world by keys: Get reads it, a
-- Put that succeeds replaces one entity, and one that fails may have replaced it or not;
-- GetAll lists the entities of a kind and a namespace.
pub record IsDatastore {W : Type 0} (entity : W → Key → Option Host) (client : DatastoreClient W)
    : Type 0 where
  pub get_keeps : (key : Key) (w : W) → entity (client.get key w).1 ≡ entity w
  pub get_found :
      (key : Key) (w : W) (h : Host) → (client.get key w).0 ≡ ok h → entity w key ≡ some h
  pub put_ok :
      (key : Key) (h : Host) (w : W) (k j : Key)
      → (client.put key h w).0 ≡ ok k
      → entity (client.put key h w).1 j ≡ (if same_key key j then some h else entity w j)
  pub put_err :
      (key : Key) (h : Host) (w : W) (e : Error) (j : Key)
      → (client.put key h w).0 ≡ err e
      → (entity (client.put key h w).1 j ≡ entity w j)
        ⊎ (entity (client.put key h w).1 j ≡ (if same_key key j then some h else entity w j))
  pub get_all_keeps : (q : Query) (w : W) → entity (client.get_all q w).1 ≡ entity w
  pub get_all_finds :
      (q : Query) (w : W) (hosts : List Host)
      → (client.get_all q w).0 ≡ ok hosts
      → (name : Str) (h : Host)
      → entity w (record { kind = q.kind; name = name; namespace = q.namespace }) ≡ some h
      → Listed h hosts
  pub get_all_found :
      (q : Query) (w : W) (hosts : List Host)
      → (client.get_all q w).0 ≡ ok hosts
      → (h : Host) → Listed h hosts
      → (name : Str) × (entity w (record { kind = q.kind; name = name; namespace = q.namespace })
          ≡ some h)

-- The host stored under a name.
abbrev pub stored_by :
    {W : Type 0} → (W → Key → Option Host) → DatastoreConfig W → W → Str → Option Host
stored_by entity c w name = entity w (name_key c name)

module _ {W : Type 0} (entity : W → Key → Option Host) (c : DatastoreConfig W)
    (d : IsDatastore entity c.client) where
  names_alone : (n j : Str) → same_key (name_key c n) (name_key c j) ≡ (n == j)
  unfolding name_key
  names_alone n j = ground (arith, eq_iff c.kind c.kind, eq_iff c.namespace c.namespace)

  save_put : (h : Host) (w : W) → (save c h w).1 ≡ (c.client.put (name_key c h.name) h w).1
  unfolding save ◌>>=◌
  save_put h w = ground arith

  put_of_save-ok :
      (h : Host) (w : W)
      → (save c h w).0 ≡ ok tt
      → (k : Key) × ((c.client.put (name_key c h.name) h w).0 ≡ ok k)
  unfolding save
  put_of_save-ok h w e =
      let (k, put, _) = bind-eq-ok (c.client.put (name_key c h.name) h) _ w e in (k, put)

  put_of_save-err :
      (h : Host) (w : W) (e : Error)
      → (save c h w).0 ≡ err e
      → (c.client.put (name_key c h.name) h w).0 ≡ err e
  unfolding save ◌>>=◌
  put_of_save-err h w e p = ground arith

  pub save_ok_lem :
      (h : Host) (w : W) (j : Str)
      → (save c h w).0 ≡ ok tt
      → stored_by entity c (save c h w).1 j
        ≡ (if h.name == j then some h else stored_by entity c w j)
  save_ok_lem h w j e =
      let (k, put) = put_of_save-ok h w e in
      rw (save_put h w, ← names_alone h.name j) (d.put_ok _ h w k (name_key c j) put)

  pub save_err_lem :
      (h : Host) (w : W) (e : Error) (j : Str)
      → (save c h w).0 ≡ err e
      → (stored_by entity c (save c h w).1 j ≡ stored_by entity c w j)
        ⊎ (stored_by entity c (save c h w).1 j
            ≡ (if h.name == j then some h else stored_by entity c w j))
  save_err_lem h w e j p =
      rw (save_put h w, ← names_alone h.name j)
        (d.put_err _ h w e (name_key c j) (put_of_save-err h w e p))

  pub load_keeps_lem :
      (name : Str) (w : W) → stored_by entity c (load c name w).1 ≡ stored_by entity c w
  unfolding load
  load_keeps_lem name w = ap (λ e j. e (name_key c j)) (d.get_keeps (name_key c name) w)

  pub load_found_lem :
      (name : Str) (w : W) (h : Host)
      → (load c name w).0 ≡ ok h
      → stored_by entity c w name ≡ some h
  unfolding load
  load_found_lem name w h e = d.get_found (name_key c name) w h e

  pub list_keeps_lem : (w : W) → stored_by entity c (list c w).1 ≡ stored_by entity c w
  unfolding list
  list_keeps_lem w = ap (λ e j. e (name_key c j)) (d.get_all_keeps _ w)

  pub list_finds_lem :
      (w : W) (hosts : List Host)
      → (list c w).0 ≡ ok hosts
      → (name : Str) (h : Host) → stored_by entity c w name ≡ some h
      → Listed h hosts
  unfolding list name_key
  list_finds_lem w hosts e name h found = d.get_all_finds _ w hosts e name h found

  pub list_found_lem :
      (w : W) (hosts : List Host)
      → (list c w).0 ≡ ok hosts
      → (h : Host) → Listed h hosts
      → (name : Str) × (stored_by entity c w name ≡ some h)
  unfolding list name_key
  list_found_lem w hosts e h listed = d.get_all_found _ w hosts e h listed
