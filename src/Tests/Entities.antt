-- ===== src/Tests/Entities.antt =====
-- A Datastore that holds host records by name.
use epoxy.Base.{
  Str, ◌==◌, eq_iff, ◌≡◌, ◌⊎◌, inl, inr, refl, ◌∙◌, ap, Option, none, some, Bool, ◌&&◌, List, [],
  ◌∷◌, Listed, here, later, Error, external, Outcome, ok, err, if◌then◌else◌, arith, Bool-cases,
}
use epoxy.Base.Dict.{Dict, lookup, insert, lookup-insert}
use epoxy.Storage.Host.{Host}
use epoxy.Storage.Datastore.{Key, Query, DatastoreClient, entity_kind, epoxy_namespace}
use epoxy.Storage.Datastore.Laws.{same_key, IsDatastore}

abbrev pub Records : Type 0
Records = Dict Host

abbrev or_missing : Option Host → Outcome Error Host
or_missing none = err (external [])
or_missing (some h) = ok h

or_missing-ok : (o : Option Host) (h : Host) → or_missing o ≡ ok h → o ≡ some h
or_missing-ok none h e = cc
or_missing-ok (some k) h e = ground arith

abbrev is_ours : Str → Str → Bool
is_ours kind namespace = (kind == entity_kind) && (namespace == epoxy_namespace)

abbrev pub view : Records → Key → Option Host
view w key = if is_ours key.kind key.namespace then lookup key.name w else none

abbrev with_host : Option Host → List Host → List Host
with_host none hosts = hosts
with_host (some h) hosts = h ∷ hosts

abbrev hosts_of : Records → Records → List Host
hosts_of [] w = []
hosts_of ((name, x) ∷ rest) w = with_host (lookup name w) (hosts_of rest w)

abbrev pub client : DatastoreClient Records
client = record {
  get = λ key w. (or_missing (view w key), w);
  put = λ key h w.
      if is_ours key.kind key.namespace
      then (ok key, insert key.name h w)
      else (err (external []), w);
  get_all = λ q w. (ok (if is_ours q.kind q.namespace then hosts_of w w else []), w);
}

Listed-with_host :
    (o : Option Host) (hosts : List Host) (h : Host) → Listed h hosts → Listed h (with_host o hosts)
Listed-with_host none hosts h listed = listed
Listed-with_host (some k) hosts h listed = later k hosts listed

hosts_of_finds :
    (all : Records) (w : Records) (name : Str) (h : Host)
    → lookup name w ≡ some h
    → (x : Host) → lookup name all ≡ some x
    → Listed h (hosts_of all w)
unfolding lookup
hosts_of_finds [] w name h there x found = cc
hosts_of_finds ((k, y) ∷ rest) w name h there x found = elim (Bool-cases (k == name)) [
  | inl same ↦
      let k' : lookup k w ≡ some h = ap (λ n. lookup n w) ((eq_iff k name).0 same) ∙ there in
      rw k' (here (hosts_of rest w))
  | inr other ↦
      let found' : lookup name rest ≡ some x = ground arith in
      Listed-with_host (lookup k w) (hosts_of rest w) h
        (hosts_of_finds rest w name h there x found')
]

found_of :
    (o : Option Host) (w : Records) (k : Str) (hosts : List Host) (h : Host)
    → lookup k w ≡ o
    → Listed h (with_host o hosts)
    → (lookup k w ≡ some h) ⊎ Listed h hosts
found_of none w k _ h e listed = inr listed
found_of (some x) w k _ _ e (here hosts) = inl e
found_of (some _) w k _ h e (later x hosts listed) = inr listed

hosts_of_found :
    (all : Records) (w : Records) (h : Host)
    → Listed h (hosts_of all w)
    → (name : Str) × (lookup name w ≡ some h)
hosts_of_found [] w h listed = elim listed [ ]
hosts_of_found ((k, y) ∷ rest) w h listed =
    elim (found_of (lookup k w) w k (hosts_of rest w) h refl listed) [
      | inl e ↦ (k, e)
      | inr later' ↦ hosts_of_found rest w h later'
    ]

module _ (key : Key) (h : Host) (w : Records) (j : Key) where
  put_ok :
      {k : Key}
      → (client.put key h w).0 ≡ ok k
      → view (client.put key h w).1 j ≡ (if same_key key j then some h else view w j)
  put_ok e = ground (
    arith,
    lookup-insert key.name j.name h w,
    eq_iff key.kind j.kind,
    eq_iff key.name j.name,
    eq_iff key.namespace j.namespace,
    eq_iff key.kind entity_kind,
    eq_iff j.kind entity_kind,
    eq_iff key.namespace epoxy_namespace,
    eq_iff j.namespace epoxy_namespace,
  )

  put_err : {x : Error} → (client.put key h w).0 ≡ err x → view (client.put key h w).1 j ≡ view w j
  put_err e = ground arith

module _ (q : Query) (w : Records) (hosts : List Host) (h : Host) where
  get_all_finds :
      (client.get_all q w).0 ≡ ok hosts
      → (name : Str)
      → view w (record { kind = q.kind; name = name; namespace = q.namespace }) ≡ some h
      → Listed h hosts
  get_all_finds e name there = elim (Bool-cases (is_ours q.kind q.namespace)) [
    | inl mine ↦
        let there' : lookup name w ≡ some h = ground arith in
        let same : hosts_of w w ≡ hosts = ground arith in
        rw (← same) (hosts_of_finds w w name h there' h there')
    | inr other ↦ ground arith
  ]

  get_all_found :
      (client.get_all q w).0 ≡ ok hosts
      → Listed h hosts
      → (name : Str) × (view w (record { kind = q.kind; name = name; namespace = q.namespace })
          ≡ some h)
  get_all_found e listed = elim (Bool-cases (is_ours q.kind q.namespace)) [
    | inl mine ↦
        let same : hosts ≡ hosts_of w w = ground arith in
        let (name, there) = hosts_of_found w w h (rw same at listed) in (name, ground arith)
    | inr other ↦
        let same : hosts ≡ [] = ground arith in
        let none_listed : Listed h [] = rw same at listed in elim none_listed [ ]
  ]

pub client-IsDatastore : IsDatastore view client
client-IsDatastore = record {
  get_keeps = λ key w. refl;
  get_found = λ key w h e. or_missing-ok (view w key) h e;
  put_ok = λ key h w k j e. put_ok key h w j e;
  put_err = λ key h w x j e. inl (put_err key h w j e);
  get_all_keeps = λ q w. refl;
  get_all_finds = λ q w hosts e name h there. get_all_finds q w hosts h e name there;
  get_all_found = λ q w hosts e h listed. get_all_found q w hosts h e listed;
}
