-- ===== src/Nextboot/Kept.antt =====
-- nextboot: the invariant of a run on the state of a client, and the basic steps.
use epoxy.Base.{Str, ◌≡◌, Option, none, some, Error, Outcome, ok, err}
use epoxy.Base.Dict.{Dict, lookup, HasDistinctKeys}
use epoxy.Base.Exec.{Exec, finally, on_err, on_failure, Keeps}
use epoxy.Nextboot.Config.{Config, V1}
use epoxy.Nextboot.Client.{Machine, Client, Action, remove_file, on_world, create_temp, get_v1}

-- The environment of an action is a map.
abbrev pub HasMaps : Option V1 → Type 0
HasMaps none = Unit
HasMaps (some v1) = HasDistinctKeys v1.env

-- encoding/json decodes an object into a map.
abbrev pub DecodesMaps : {W : Type 0} → Machine W → Type 0
DecodesMaps m = (body : Str) (n : Config) → m.decode body ≡ ok (some n) → HasMaps n.v1

-- Every variable has its value in `env`, every kernel argument of `kargs` is there with its value.
abbrev pub IsKept : Dict Str → Dict Str → Config → Dict Str → Type 0
IsKept env kargs c env' =
    ((k : Str) → lookup k env' ≡ lookup k env)
    × ((k v : Str) → lookup k kargs ≡ some v → lookup k c.kargs ≡ some v)
    × HasMaps c.v1

module _ {W : Type 0} (env kargs : Dict Str) where
  abbrev pub Kept : Client W → Type 0
  Kept s = IsKept env kargs s.config s.env

  pub on_world-Keeps : {A : Type 0} (a : Exec W Error A) → Keeps Kept (on_world a)
  unfolding on_world
  on_world-Keeps a = record { at = λ s h. h }

  pub create_temp-Keeps : (m : Machine W) (pattern : Str) → Keeps Kept (create_temp m pattern)
  unfolding create_temp
  create_temp-Keeps m pattern = record { at = λ s h. h }

  pub get_v1-Keeps : Keeps Kept get_v1
  unfolding get_v1
  get_v1-Keeps = record { at = λ s h. h }

  on_err-Kept :
      {A : Type 0} (r : Outcome Error A) (name : Str) (s : Client W)
      → Kept s
      → Kept (on_err r (remove_file name) s)
  unfolding remove_file
  on_err-Kept (ok a) name s h = h
  on_err-Kept (err e) name s h = h

  pub on_failure-Keeps :
      {A : Type 0} (a : Action W A) (name : Str)
      → Keeps Kept a
      → Keeps Kept (on_failure a (remove_file name))
  on_failure-Keeps a name k = record {
    at = λ s h. let (r, s') = a s in on_err-Kept r name s' (k.at s h);
  }

  pub finally-Keeps :
      {A : Type 0} (a : Action W A) (f : Client W → Client W)
      → ((s : Client W) → Kept s → Kept (f s))
      → Keeps Kept a
      → Keeps Kept (finally a f)
  finally-Keeps a f g k = record { at = λ s h. let (r, s') = a s in g s' (k.at s h) }
