-- ===== src/Go/Utf8/Runes.antt =====
-- unicode/utf8: the bytes of a rune.
use epoxy.Base.{ℕ, zero, suc, ◌-◌, ◌≤◌, ◌≡◌, refl, Str, true, [], ◌∷◌, arith, leb}
use epoxy.Go.Utf8.{follows, follows_first, rune_size, valid_behind}

-- Bytes that are not ASCII.
unfoldable pub High : ℕ → Str → Type 0
High (suc n) (c ∷ s) = (0x80 ≤ c) × High n s
High _ _ = Unit

follows-High : (n : ℕ) (s : Str) → follows n s ≡ true → High n s
unfolding follows High
follows-High zero s h = tt
follows-High (suc n) [] h = tt
follows-High (suc n) (c ∷ s) h = ground (arith, follows-High n s)

follows_first-High : (a n : ℕ) (s : Str) → follows_first a n s ≡ true → High (suc n) s
unfolding follows_first High
follows_first-High a n [] h = tt
follows_first-High a n (b ∷ s) h = ground (arith, follows-High n s)

pub rune_size-High : (c : ℕ) (s : Str) → High (rune_size (c ∷ s) - 1) s
unfolding rune_size High
rune_size-High c s =
    ground (arith, follows-High 1 s, follows_first-High c 1 s, follows_first-High c 2 s)

pub rune_size-ascii : (c : ℕ) (s : Str) → leb c 0x7f ≡ true → rune_size (c ∷ s) ≡ 1
unfolding rune_size
rune_size-ascii c s h = rw h refl

pub valid_behind-ascii :
    (a : ℕ) (s : Str) → leb a 0x7f ≡ true → valid_behind 0 (a ∷ s) ≡ true → valid_behind 0 s ≡ true
unfolding valid_behind
valid_behind-ascii a s h v = ground (arith, rune_size-ascii a s)

pub valid_behind-rune :
    (a : ℕ) (s : Str)
    → valid_behind 0 (a ∷ s) ≡ true
    → (leb 1 (rune_size (a ∷ s)) ≡ true) × (valid_behind (rune_size (a ∷ s) - 1) s ≡ true)
unfolding valid_behind
valid_behind-rune a s v = ground arith

pub valid_behind-suc :
    (c n : ℕ) (s : Str) → valid_behind (suc n) (c ∷ s) ≡ true → valid_behind n s ≡ true
unfolding valid_behind
valid_behind-suc c n s v = v
