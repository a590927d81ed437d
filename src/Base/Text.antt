-- ===== src/Base/Text.antt =====
-- Go strings: lists of bytes. A literal of the source is `ascii "…"`.
use Prim.Native.Nat.{ℕ}
use Prim.Native.Char.{code}
use Prim.Native.String.{String}
use mathlib.Core.Path.{◌≡◌, refl}
use mathlib.Core.Logic.{◌≢◌, ◌↔◌}
use mathlib.Core.Bool.{Bool, true, false, ◌&&◌}
use mathlib.Core.List.{List, [], ◌∷◌}
use native.Mathlib.Omega.{arith}
use epoxy.Base.Tests.{same_byte}

abbrev pub Str : Type 0
Str = List ℕ

-- The bytes of a literal, which is ASCII everywhere in the source.
unfoldable pub ascii : String → Str
ascii String.[] = []
ascii (String.◌∷◌ c s) = code c ∷ ascii s

infix 50 ◌==◌
unfoldable pub ◌==◌ : Str → Str → Bool
[] == [] = true
[] == (b ∷ t) = false
(a ∷ s) == [] = false
(a ∷ s) == (b ∷ t) = same_byte a b && s == t

eq→path : (s t : Str) → (s == t) ≡ true → s ≡ t
unfolding ◌==◌
eq→path [] [] h = refl
eq→path [] (b ∷ t) h = cc
eq→path (a ∷ s) [] h = cc
eq→path (a ∷ s) (b ∷ t) h = ground (arith, eq→path s t)

pub eq_refl : (s : Str) → (s == s) ≡ true
unfolding ◌==◌
eq_refl [] = refl
eq_refl (a ∷ s) = ground (arith, eq_refl s)

pub eq_iff : (s t : Str) → ((s == t) ≡ true) ↔ (s ≡ t)
eq_iff s t = (eq→path s t, λ p. rw p (eq_refl t))

pub ne_of_eq-false : (s t : Str) → (s == t) ≡ false → s ≢ t
ne_of_eq-false s t h p = cc (h, (eq_iff s t).1 p)
