-- ===== src/Go/Strings/Paths.antt =====
-- path.Base: what stands before the last part of a path does not matter.
use epoxy.Base.{ℕ, sym, if◌then◌else◌, Str, ◌==◌, ◌≡◌, refl, false, [], ◌∷◌, ◌++◌, All, ◌∙◌}
use epoxy.Go.Strings.{trim_right, keep_end, is_slash, after_last_slash, path_base}

-- A part of a path: not empty, and without a slash.
abbrev pub IsPart : Str → Type 0
IsPart [] = ¬ Unit
IsPart (b ∷ s) = All (λ c. is_slash c ≡ false) (b ∷ s)

trim_right-part : (s : Str) → All (λ c. is_slash c ≡ false) s → trim_right is_slash s ≡ s
unfolding trim_right
trim_right-part [] h = refl
trim_right-part (b ∷ []) h = rw (h.0) refl
trim_right-part (b ∷ c ∷ s) h = rw (trim_right-part (c ∷ s) h.1) refl

keep_end-append :
    (b : ℕ) (p : Str) (c : ℕ) (s : Str) → keep_end is_slash b (p ++ (c ∷ s)) ≡ b ∷ (p ++ (c ∷ s))
keep_end-append b [] c s = refl
keep_end-append b (d ∷ p) c s = refl

trim_right-append : (p s : Str) → IsPart s → trim_right is_slash (p ++ (b'/' ∷ s)) ≡ p ++ (b'/' ∷ s)
unfolding trim_right
trim_right-append p [] h = absurd (h tt)
trim_right-append [] (c ∷ s) h = rw (trim_right-part (c ∷ s) h) refl
trim_right-append (b ∷ p) (c ∷ s) h =
    rw (trim_right-append p (c ∷ s) h) (keep_end-append b p b'/' (c ∷ s))

after_last_slash-append :
    (p s acc : Str) → after_last_slash acc (p ++ (b'/' ∷ s)) ≡ after_last_slash [] s
unfolding after_last_slash
after_last_slash-append [] s acc = refl
after_last_slash-append (b ∷ p) s acc = after_last_slash-append p s _

abbrev part_of : Str → Str
part_of s =
    let base = after_last_slash [] (trim_right is_slash s) in if base == [] then b'/' ∷ [] else base

path_base-cons : (b : ℕ) (s : Str) → path_base (b ∷ s) ≡ part_of (b ∷ s)
unfolding path_base ◌==◌
path_base-cons b s = refl

path_base-append : (p s : Str) → path_base (p ++ (b'/' ∷ s)) ≡ part_of (p ++ (b'/' ∷ s))
path_base-append [] s = path_base-cons b'/' s
path_base-append (b ∷ p) s = path_base-cons b (p ++ (b'/' ∷ s))

same_part :
    (p : Str) (c : ℕ) (s : Str) → IsPart (c ∷ s) → part_of (p ++ (b'/' ∷ c ∷ s)) ≡ part_of (c ∷ s)
same_part p c s h =
    rw (trim_right-append p (c ∷ s) h, trim_right-part (c ∷ s) h)
      (rw (after_last_slash-append p (c ∷ s) []) refl)

pub path_base-part : (p s : Str) → IsPart s → path_base (p ++ (b'/' ∷ s)) ≡ path_base s
path_base-part p [] h = absurd (h tt)
path_base-part p (c ∷ s) h =
    path_base-append p (c ∷ s) ∙ same_part p c s h ∙ sym (path_base-cons c s)
