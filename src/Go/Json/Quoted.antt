-- ===== src/Go/Json/Quoted.antt =====
-- Reading back the strings that encoding/json has written.
use mathlib.Core.List.{append_assoc}
use epoxy.Base.{
  ℕ, zero, suc, ◌-◌, ◌≡◌, ◌⊎◌, inl, inr, refl, ◌∙◌, ap, Str, Bool, true, false, not, [], ◌∷◌, ◌++◌,
  some, arith, leb, same_byte, Bool-cases,
}
use epoxy.Go.Utf8.{rune_size, valid_behind, valid_string}
use epoxy.Go.Json.{contents, rune_text, escaped, is_separator, separator_digit}
use epoxy.Go.Json.Reader.{Literal, plain, coerced, read, read_string}
use epoxy.Go.Utf8.Runes.{
  High, rune_size-High, valid_behind-ascii, valid_behind-rune, valid_behind-suc, rune_size-ascii,
}
use epoxy.Go.Json.Escapes.{read-plain, read-escaped}

pub contents-any : (b : Bool) (s : Str) → contents 0 b s ≡ contents 0 true s
unfolding contents
contents-any b [] = refl
contents-any b (c ∷ s) = refl

rune_text-ascii : (c : ℕ) (s : Str) → leb c 0x7f ≡ true → rune_text c s ≡ escaped c
unfolding rune_text
rune_text-ascii c s h = rw h refl

rune_text-copied :
    (c : ℕ) (s : Str)
    → leb c 0x7f ≡ false
    → same_byte (rune_size (c ∷ s)) 0 ≡ false
    → is_separator (c ∷ s) ≡ false
    → rune_text c s ≡ c ∷ []
unfolding rune_text
rune_text-copied c s h e f = rw (h, e, f) refl

is_separator_bytes :
    (a b c : ℕ) (s : Str)
    → is_separator (a ∷ b ∷ c ∷ s) ≡ true
    → (a ≡ 0xe2) × (b ≡ 0x80) × ((c ≡ 0xa8) ⊎ (c ≡ 0xa9))
unfolding is_separator
is_separator_bytes a b c s h = ground arith

-- What the reader finds of a rest of a string, behind `n` bytes of a rune.
abbrev ReadsBack : Str → ℕ → Str → Type 0
ReadsBack t n s =
    read (plain 0) (contents n true s ++ b'"' ∷ t)
    ≡ some (record { raw = contents n true s; text = s }, t)

behind : ℕ → Str → Str
behind n [] = []
behind zero (c ∷ s) = c ∷ s
behind (suc n) (c ∷ s) = behind n s

-- The same where an escape stands for the rune.
abbrev SkipsBack : Str → ℕ → Str → Type 0
SkipsBack t n s =
    read (plain 0) (contents n false s ++ b'"' ∷ t)
    ≡ some (record { raw = contents n false s; text = behind n s }, t)

reads-separator :
    (d : ℕ) (s t : Str)
    → (d ≡ 0xa8) ⊎ (d ≡ 0xa9)
    → read (plain 0) (contents 0 false s ++ b'"' ∷ t)
      ≡ some (record { raw = contents 0 false s; text = s }, t)
    → ReadsBack t 0 (0xe2 ∷ 0x80 ∷ d ∷ s)
unfolding contents rune_text rune_size is_separator separator_digit read behind
reads-separator d s t (inl e) skipped = rw e (simp skipped)
reads-separator d s t (inr e) skipped = rw e (simp skipped)

behind_zero : (s : Str) → behind 0 s ≡ s
unfolding behind
behind_zero [] = refl
behind_zero (c ∷ s) = refl

skipped_rest :
    (b d : ℕ) (s t : Str)
    → SkipsBack t 2 (b ∷ d ∷ s)
    → read (plain 0) (contents 0 false s ++ b'"' ∷ t)
      ≡ some (record { raw = contents 0 false s; text = s }, t)
unfolding contents behind
skipped_rest b d s t skipped = skipped ∙ rw (behind_zero s) refl

reads-skipped :
    (a : ℕ) (s t : Str) → is_separator (a ∷ s) ≡ true → SkipsBack t 2 s → ReadsBack t 0 (a ∷ s)
unfolding is_separator
reads-skipped a [] t e skipped = cc
reads-skipped a (b ∷ []) t e skipped = cc
reads-skipped a (b ∷ d ∷ s) t e skipped =
    let (first, next, last) = is_separator_bytes a b d s e in
    rw (first, next) (reads-separator d s t last (skipped_rest b d s t skipped))

of_either : (d : ℕ) (s : Str) → (d ≡ 0xa8) ⊎ (d ≡ 0xa9) → rune_size (0xe2 ∷ 0x80 ∷ d ∷ s) ≡ 3
unfolding rune_size
of_either d s (inl p) = rw p refl
of_either d s (inr p) = rw p refl

separator_size : (a : ℕ) (s : Str) → is_separator (a ∷ s) ≡ true → rune_size (a ∷ s) ≡ 3
unfolding is_separator
separator_size a [] e = cc
separator_size a (b ∷ []) e = cc
separator_size a (b ∷ d ∷ s) e =
    let (first, next, last) = is_separator_bytes a b d s e in rw (first, next) (of_either d s last)

reads-ascii : (c : ℕ) (s t : Str) → leb c 0x7f ≡ true → ReadsBack t 0 s → ReadsBack t 0 (c ∷ s)
unfolding contents
reads-ascii c s t h ih = simp (
  rune_text-ascii c s h,
  rune_size-ascii c s h,
  contents-any (not (is_separator (c ∷ s))) s,
  append_assoc,
  read-escaped c (contents 0 true s ++ b'"' ∷ t) h,
  ih,
)

reads-copied :
    (c n : ℕ) (s t : Str) → leb c 0x7f ≡ false → ReadsBack t n s → ReadsBack t (suc n) (c ∷ s)
unfolding contents
reads-copied c n s t h ih =
    simp (read-plain c (contents n true s ++ b'"' ∷ t) (ground arith) (ground arith), ih)

reads-rune :
    (c : ℕ) (s t : Str)
    → leb c 0x7f ≡ false
    → leb 1 (rune_size (c ∷ s)) ≡ true
    → is_separator (c ∷ s) ≡ false
    → ReadsBack t (rune_size (c ∷ s) - 1) s
    → ReadsBack t 0 (c ∷ s)
unfolding contents
reads-rune c s t h valid e ih = simp (
  rune_text-copied c s h (ground arith) e,
  e,
  read-plain c (contents (rune_size (c ∷ s) - 1) true s ++ b'"' ∷ t) (ground arith) (ground arith),
  ih,
)

reads_nothing :
    (n : ℕ) (b : Bool) (t : Str)
    → read (plain 0) (contents n b [] ++ b'"' ∷ t)
      ≡ some (record { raw = contents n b []; text = [] }, t)
unfolding contents read
reads_nothing n b t = refl

reads-first :
    (a : ℕ) (s t : Str)
    → valid_behind 0 (a ∷ s) ≡ true
    → ((n : ℕ) → valid_behind n s ≡ true → (High n s → ReadsBack t n s) × SkipsBack t n s)
    → ReadsBack t 0 (a ∷ s)
reads-first a s t v rest = elim (Bool-cases (leb a 0x7f)) [
  | inl low ↦ reads-ascii a s t low ((rest 0 (valid_behind-ascii a s low v)).0 (unfold High in tt))
  | inr other ↦
      let (sized, valid) = valid_behind-rune a s v in
      elim (Bool-cases (is_separator (a ∷ s))) [
        | inl e ↦ reads-skipped a s t e (rest 2 (rw (separator_size a s e) at valid)).1
        | inr e ↦
            reads-rune a s t other sized e
              ((rest (rune_size (a ∷ s) - 1) valid).0 (rune_size-High a s))
      ]
]

reads_behind_first :
    (c n : ℕ) (s t : Str)
    → (High n s → ReadsBack t n s)
    → High (suc n) (c ∷ s)
    → ReadsBack t (suc n) (c ∷ s)
unfolding High
reads_behind_first c n s t reads h = reads-copied c n s t (ground (arith, h.0)) (reads h.1)

skips-suc : (c n : ℕ) (s t : Str) → SkipsBack t n s → SkipsBack t (suc n) (c ∷ s)
unfolding contents behind
skips-suc c n s t skips = skips

skips-zero : (a : ℕ) (s t : Str) → ReadsBack t 0 (a ∷ s) → SkipsBack t 0 (a ∷ s)
unfolding contents behind
skips-zero a s t reads = reads

reads_back :
    (n : ℕ) (s t : Str) → valid_behind n s ≡ true → (High n s → ReadsBack t n s) × SkipsBack t n s
reads_back n [] t v = (λ h. reads_nothing n true t, unfold behind in reads_nothing n false t)
reads_back (suc n) (c ∷ s) t v =
    let (reads, skips) = reads_back n s t (valid_behind-suc c n s v) in
    (reads_behind_first c n s t reads, skips-suc c n s t skips)
reads_back zero (a ∷ s) t v =
    let first = reads-first a s t v (λ n. reads_back n s t) in (λ h. first, skips-zero a s t first)

coerced_valid : (n : ℕ) (s : Str) → valid_behind n s ≡ true → coerced n s ≡ s
unfolding coerced valid_behind
coerced_valid n [] v = refl
coerced_valid (suc n) (c ∷ s) v = ap (λ rest. c ∷ rest) (coerced_valid n s v)
coerced_valid zero (c ∷ s) v = ground (arith, coerced_valid (rune_size (c ∷ s) - 1) s)

-- The literal that is written for a string.
abbrev pub literal : Str → Literal
literal s = record { raw = contents 0 true s; text = s }

pub read_string-contents :
    (s rest : Str)
    → valid_string s ≡ true
    → read_string (contents 0 true s ++ b'"' ∷ rest) ≡ some (literal s, rest)
unfolding read_string valid_string High
read_string-contents s rest valid =
    rw ((reads_back 0 s rest valid).0 tt) (rw (coerced_valid 0 s valid) refl)
