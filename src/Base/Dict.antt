-- ===== src/Base/Dict.antt =====
-- Go's maps with string keys, as association lists. The order of the entries stands for the order
-- in which a `range` loop meets them, which Go leaves open: nothing here assumes one.
use mathlib.Core.Path.{◌≡◌, refl}
use mathlib.Core.Bool.{Bool, true, false}
use mathlib.Core.Option.{Option, none, some}
use mathlib.Core.List.{List, [], ◌∷◌}
use native.Mathlib.Omega.{arith}
use epoxy.Base.Tests.{if◌then◌else◌}
use epoxy.Base.Text.{Str, ◌==◌, eq_iff}

abbrev pub Dict {ℓ} : Type ℓ → Type ℓ
Dict V = List (Str × V)

module _ {ℓ} {V : Type ℓ} where
  -- m[key], with `none` for a missing key
  unfoldable pub lookup : Str → Dict V → Option V
  lookup key [] = none
  lookup key ((k, x) ∷ rest) = if k == key then some x else lookup key rest

  pub lookup-nil : (key : Str) → lookup key [] ≡ none
  unfolding lookup
  lookup-nil key = refl

  pub lookup-cons :
      (k key : Str) (x : V) (rest : Dict V)
      → lookup key ((k, x) ∷ rest) ≡ (if k == key then some x else lookup key rest)
  unfolding lookup
  lookup-cons k key x rest = refl

  -- m[key] = new
  unfoldable pub insert : Str → V → Dict V → Dict V
  insert key new [] = (key, new) ∷ []
  insert key new ((k, x) ∷ rest) =
      let after = insert key new rest in if k == key then (key, new) ∷ rest else (k, x) ∷ after

  -- delete(m, key)
  unfoldable pub remove : Str → Dict V → Dict V
  remove key [] = []
  remove key ((k, x) ∷ rest) =
      let after = remove key rest in if k == key then after else (k, x) ∷ after

  pub lookup-insert :
      (key sought : Str) (new : V) (dict : Dict V)
      → lookup sought (insert key new dict)
        ≡ (if key == sought then some new else lookup sought dict)
  unfolding lookup insert
  lookup-insert key sought new [] = refl
  lookup-insert key sought new ((k, x) ∷ rest) =
      ground
        (arith, lookup-insert key sought new rest, eq_iff k sought, eq_iff k key, eq_iff key sought)

  pub lookup-remove :
      (key sought : Str) (dict : Dict V)
      → lookup sought (remove key dict) ≡ (if key == sought then none else lookup sought dict)
  unfolding lookup remove
  lookup-remove key sought [] = ground arith
  lookup-remove key sought ((k, x) ∷ rest) =
      ground
        (arith, lookup-remove key sought rest, eq_iff k sought, eq_iff k key, eq_iff key sought)

-- Membership of a key.
abbrev pub found {ℓ} : {V : Type ℓ} → Option V → Bool
found none = false
found (some v) = true

-- m[k] where a missing key reads as the empty string
abbrev pub or_empty : Option Str → Str
or_empty none = []
or_empty (some v) = v

-- The keys of a map are distinct: no later entry has the key of an earlier one.
abbrev pub HasDistinctKeys {ℓ} : {V : Type ℓ} → Dict V → Type ℓ
HasDistinctKeys [] = Unit
HasDistinctKeys ((k, v) ∷ m) = (lookup k m ≡ none) × HasDistinctKeys m
