-- ===== src/Go/Json/Ends.antt =====
-- encoding/json: what the reading of a string, a word or a number leaves of the text.
use epoxy.Base.{
  ◌||◌, ◌++◌, ascii, ℕ, zero, suc, ◌≤◌, ◌≢◌, Str, Bool, true, false, [], ◌∷◌, Option, none, some,
  length, arith, same_byte, leb, if◌then◌else◌,
}
use epoxy.Go.Json.Reader.{
  Literal, Place, plain, behind_backslash, in_code, flushed, or_none, named, put, when_some, coerce,
  read, read_string,
}
use epoxy.Go.Json.Parse.{
  Value, Parsed, parsed, failed, out_of_fuel, ◌>>=◌, of_option, skip_space, expect, expect_all,
  skip_digits, some_digits, integer, is_digit, fraction, signed_digits, exponent, parse_number,
  parse_scalar,
}

-- The parser ends within its fuel, and `P` holds of what it finds, if anything.
pub data Ends {A : Type 0} (P : A → Type 0) : Parsed A → Type 0 where
  found : (a : A) → P a → Ends P (parsed a)
  rejected : Ends P failed

pub Ends-bind :
    {A B : Type 0} {P : A → Type 0} (Q : B → Type 0) (r : Parsed A) (f : A → Parsed B)
    → Ends P r
    → ((a : A) → P a → Ends Q (f a))
    → Ends Q (r >>= f)
Ends-bind Q _ f (found a p) k = k a p
Ends-bind Q _ f rejected k = rejected

pub Ends-if :
    {A : Type 0} {P : A → Type 0} (b : Bool) (r r' : Parsed A)
    → Ends P r
    → Ends P r'
    → Ends P (if b then r else r')
Ends-if true r r' e e' = e
Ends-if false r r' e e' = e'

pub Ends-ne-out_of_fuel : {A : Type 0} {P : A → Type 0} (r : Parsed A) → Ends P r → r ≢ out_of_fuel
Ends-ne-out_of_fuel _ (found a p) e = cc e
Ends-ne-out_of_fuel _ rejected e = cc e

-- What is left of a text is at most `n` bytes long.
abbrev Left : ℕ → Str → Type 0
Left n rest = length rest ≤ n

abbrev pub Leaves : {A : Type 0} → ℕ → Parsed (A × Str) → Type 0
Leaves n r = Ends (λ (a, rest). length rest ≤ n) r

pub skip_space_left : (s : Str) → length (skip_space s) ≤ length s
unfolding skip_space
skip_space_left [] = omega arith
skip_space_left (c ∷ s) = ground (arith, skip_space_left s)

data Short (n : ℕ) : Option (Literal × Str) → Type 0 where
  no_string : Short n none
  string_left : (l : Literal) (rest : Str) → length rest ≤ n → Short n (some (l, rest))

Short-put : (n c : ℕ) (t : Str) (r : Option (Literal × Str)) → Short n r → Short (suc n) (put c t r)
Short-put n c t _ no_string = no_string
Short-put n c t _ (string_left l rest h) = string_left _ rest (omega arith)

Short-when_some :
    {A : Type 0} (n : ℕ) (o : Option A) (r : Option (Literal × Str))
    → Short n r
    → Short n (when_some o r)
Short-when_some n none r h = no_string
Short-when_some n (some a) r h = h

Short-if :
    (n : ℕ) (b : Bool) (r r' : Option (Literal × Str))
    → Short n r
    → Short n r'
    → Short n (if b then r else r')
Short-if n true r r' h h' = h
Short-if n false r r' h h' = h'

read-Short : (s : Str) (place : Place) → Short (length s) (read place s)
unfolding read
read-Short [] place = no_string
read-Short (c ∷ s) (plain high) =
    Short-if _ (same_byte c b'"') _ _ (string_left _ s (omega arith))
      (Short-if _ (leb c 31) _ _ no_string (Short-put _ c _ _ (read-Short s _)))
read-Short (c ∷ s) (behind_backslash high) =
    let next = if same_byte c b'u' then in_code high 3 0 else plain 0 in
    Short-if _ (same_byte c b'u') _ _ (Short-put _ c [] _ (read-Short s next)) (
      Short-when_some _ (named c) _
        (Short-put _ c (flushed high ++ or_none (named c)) _ (read-Short s next)))
read-Short (c ∷ s) (in_code high zero v) =
    Short-when_some _ _ _ (Short-put _ c _ _ (read-Short s _))
read-Short (c ∷ s) (in_code high (suc n) v) =
    Short-when_some _ _ _ (Short-put _ c [] _ (read-Short s _))

coerce-Leaves :
    (m n : ℕ) (r : Option (Literal × Str)) → m ≤ n → Short m r → Leaves n (of_option (coerce r))
coerce-Leaves m n _ le no_string = rejected
coerce-Leaves m n _ le (string_left l rest h) = found _ (omega arith)

pub read_string-Leaves : (n : ℕ) (s : Str) → length s ≤ n → Leaves n (of_option (read_string s))
unfolding read_string
read_string-Leaves n s h = coerce-Leaves _ n _ h (read-Short s (plain 0))

pub expect-Ends : (c : ℕ) (s : Str) → Ends (λ rest. suc (length rest) ≤ length s) (expect c s)
expect-Ends c [] = rejected
expect-Ends c (d ∷ s) = Ends-if (same_byte d c) _ _ (found s (omega arith)) rejected

expect_all-Ends : (n : ℕ) (word s : Str) → length s ≤ n → Ends (Left n) (expect_all word s)
unfolding expect_all
expect_all-Ends n [] s h = found s h
expect_all-Ends n (c ∷ word) s h =
    Ends-bind _ _ _ (expect-Ends c s) λ rest less. expect_all-Ends n word rest (omega arith)

skip_digits_left : (s : Str) → length (skip_digits s) ≤ length s
unfolding skip_digits
skip_digits_left [] = omega arith
skip_digits_left (c ∷ s) = ground (arith, skip_digits_left s)

some_digits-Ends : (n : ℕ) (s : Str) → length s ≤ n → Ends (Left n) (some_digits s)
some_digits-Ends n [] h = rejected
some_digits-Ends n (c ∷ s) h =
    Ends-if (is_digit c) _ _ (found _ (omega (arith, skip_digits_left s))) rejected

integer-Ends : (s : Str) → Ends (λ rest. suc (length rest) ≤ length s) (integer s)
integer-Ends [] = rejected
integer-Ends (c ∷ s) =
    Ends-if (same_byte c b'0') _ _ (found s (omega arith))
      (Ends-if (is_digit c) _ _ (found _ (omega (arith, skip_digits_left s))) rejected)

fraction-Ends : (n : ℕ) (s : Str) → length s ≤ n → Ends (Left n) (fraction s)
fraction-Ends n [] h = found [] h
fraction-Ends n (c ∷ s) h =
    Ends-if (same_byte c b'.') _ _ (some_digits-Ends n s (omega arith)) (found _ h)

signed_digits-Ends : (n : ℕ) (s : Str) → length s ≤ n → Ends (Left n) (signed_digits s)
signed_digits-Ends n [] h = rejected
signed_digits-Ends n (c ∷ s) h =
    Ends-if (same_byte c b'+' || same_byte c b'-') _ _ (some_digits-Ends n s (omega arith))
      (some_digits-Ends n (c ∷ s) h)

exponent-Ends : (n : ℕ) (s : Str) → length s ≤ n → Ends (Left n) (exponent s)
exponent-Ends n [] h = found [] h
exponent-Ends n (c ∷ s) h =
    Ends-if (same_byte c b'e' || same_byte c b'E') _ _ (signed_digits-Ends n s (omega arith))
      (found _ h)

parse_number-Ends : (n : ℕ) (s : Str) → length s ≤ suc n → Ends (Left n) (parse_number s)
unfolding parse_number
parse_number-Ends n s h =
    Ends-bind _ _ _ (integer-Ends s)
      λ s₁ h₁. Ends-bind _ _ _ (fraction-Ends n s₁ (omega arith)) λ s₂ h₂. exponent-Ends n s₂ h₂

with_value :
    (n : ℕ) (v : Value) (r : Parsed Str)
    → Ends (Left n) r
    → Leaves n (r >>= λ rest. parsed (v, rest))
with_value n v r e = Ends-bind _ _ _ e λ rest h. found _ h

pub parse_scalar-Leaves : (n c : ℕ) (s : Str) → length s ≤ n → Leaves n (parse_scalar c s)
unfolding parse_scalar ascii
parse_scalar-Leaves n c s h =
    Ends-if (same_byte c b'"') _ _
      (Ends-bind _ _ _ (read_string-Leaves n s h) λ (l, rest) less. found _ less)
      (Ends-if (same_byte c b't') _ _ (word (Value.boolean true) (ascii "rue")) (
        Ends-if (same_byte c b'f') _ _ (word (Value.boolean false) (ascii "alse")) (
          Ends-if (same_byte c b'n') _ _ (word Value.null (ascii "ull")) (
            Ends-if (same_byte c b'-') _ _
              (with_value n Value.number _ (parse_number-Ends n s (omega arith)))
              (with_value n Value.number _ (parse_number-Ends n (c ∷ s) (omega arith)))))))
  where
    word : (v : Value) (w : Str) → Leaves n (expect_all w s >>= λ rest. parsed (v, rest))
    word v w = with_value n v _ (expect_all-Ends n w s h)
