-- ===== src/Go/Decimal/Padded.antt =====
-- Numbers that fit their width, printed and read.
use epoxy.Base.{
  ℕ, zero, suc, ◌+◌, ◌-◌, ◌*◌, ◌/◌, ◌%◌, ◌<◌, ◌≤◌, Str, ◌≡◌, refl, ◌∙◌, ap, false, [], ◌∷◌, ◌++◌,
  ok, inl, inr, leb, length, arith, Bool-cases,
}
use epoxy.Go.Decimal.{digits, zeros, padded, parse_digits, int64_limit, in_range, parse_int}

-- 10 ^ w
abbrev pub pow10 : ℕ → ℕ
pow10 zero = 1
pow10 (suc w) = pow10 w * 10

-- n * 10 ^ w
abbrev pub shift : ℕ → ℕ → ℕ
shift zero n = n
shift (suc w) n = shift w n * 10

shift_split : (k w n : ℕ) → k ≤ w → shift k (shift (w - k) n) ≡ shift w n
shift_split zero w n bound = ap (λ m. shift m n) (omega arith)
shift_split (suc k) zero n bound = omega arith
shift_split (suc k) (suc w) n bound =
    let same : suc w - suc k ≡ w - k = omega arith in
    rw same (ap (λ m. m * 10) (shift_split k w n (omega arith)))

shift_ten : (a n : ℕ) → shift a (n * 10) ≡ shift a n * 10
shift_ten zero n = refl
shift_ten (suc a) n = ap (λ m. m * 10) (shift_ten a n)

parse_digits_digit :
    (d value : ℕ) (rest : Str)
    → d < 10
    → parse_digits value ((48 + d) ∷ rest) ≡ parse_digits (value * 10 + d) rest
unfolding parse_digits
parse_digits_digit d value rest small = ground arith

parse_digits-zeros :
    (k value : ℕ) (rest : Str)
    → parse_digits value (zeros k ++ rest) ≡ parse_digits (shift k value) rest
unfolding zeros
parse_digits-zeros zero value rest = refl
parse_digits-zeros (suc k) value rest =
    parse_digits_digit 0 value (zeros k ++ rest) (omega arith)
    ∙ parse_digits-zeros k (value * 10 + 0) rest
    ∙ ap (λ n. parse_digits n rest) (ap (shift k) (omega arith) ∙ shift_ten k value)

append_assoc : (xs ys zs : Str) → (xs ++ ys) ++ zs ≡ xs ++ (ys ++ zs)
append_assoc [] ys zs = refl
append_assoc (x ∷ xs) ys zs = ap (λ tail. x ∷ tail) (append_assoc xs ys zs)

length_snoc : (xs : Str) (c : ℕ) → length (xs ++ (c ∷ [])) ≡ suc (length xs)
length_snoc [] c = refl
length_snoc (x ∷ xs) c = ap suc (length_snoc xs c)

digits-small : (fuel n : ℕ) → n ≤ fuel → n < 10 → digits fuel n ≡ (48 + n) ∷ []
unfolding digits
digits-small zero n bound small = ap (λ d. (48 + d) ∷ []) (omega arith)
digits-small (suc fuel) n bound small = let same : n % 10 ≡ n = omega arith in ground arith

digits-large :
    (fuel n : ℕ) → 10 ≤ n → digits (suc fuel) n ≡ digits fuel (n / 10) ++ ((48 + n % 10) ∷ [])
unfolding digits
digits-large fuel n large = ground arith

parse_digits-digits :
    (fuel n value : ℕ) (rest : Str)
    → n ≤ fuel
    → parse_digits value (digits fuel n ++ rest)
      ≡ parse_digits (shift (length (digits fuel n)) value + n) rest
parse_digits-digits zero n value rest bound =
    let small : n < 10 = omega arith in
    rw (digits-small 0 n bound small) (parse_digits_digit n value rest small)
parse_digits-digits (suc fuel) n value rest bound = elim (Bool-cases (leb 10 n)) [
  | inl e ↦
      let large : 10 ≤ n = ground arith in
      rw
        (
          digits-large fuel n large,
          append_assoc (digits fuel (n / 10)) ((48 + n % 10) ∷ []) rest,
          length_snoc (digits fuel (n / 10)) (48 + n % 10),
        )
        (parse_digits-digits fuel (n / 10) value ((48 + n % 10) ∷ rest) (omega arith)
          ∙ parse_digits_digit (n % 10) _ rest (omega arith)
          ∙ ap (λ m. parse_digits m rest) (omega arith))
  | inr e ↦
      let small : n < 10 = ground arith in
      rw (digits-small (suc fuel) n bound small) (parse_digits_digit n value rest small)
]

length-digits : (fuel n w : ℕ) → n ≤ fuel → n < pow10 (suc w) → length (digits fuel n) ≤ suc w
length-digits zero n w bound fits = rw (digits-small 0 n bound (omega arith)) (omega arith)
length-digits (suc fuel) n zero bound fits =
    rw (digits-small (suc fuel) n bound (omega arith)) (omega arith)
length-digits (suc fuel) n (suc w) bound fits = elim (Bool-cases (leb 10 n)) [
  | inl e ↦
      let shorter = length-digits fuel (n / 10) w (omega arith) (omega arith) in
      rw (digits-large fuel n (ground arith), length_snoc (digits fuel (n / 10)) (48 + n % 10))
        (omega arith)
  | inr e ↦ rw (digits-small (suc fuel) n bound (ground arith)) (omega arith)
]

-- A number that fits its width, read behind `value`.
pub parse_digits-padded :
    (w n value : ℕ) (rest : Str)
    → n < pow10 (suc w)
    → parse_digits value (padded (suc w) n ++ rest) ≡ parse_digits (shift (suc w) value + n) rest
unfolding padded
parse_digits-padded w n value rest fits =
    let len = length (digits n n) in
    ap (parse_digits value) (append_assoc (zeros (suc w - len)) (digits n n) rest)
    ∙ parse_digits-zeros (suc w - len) value (digits n n ++ rest)
    ∙ parse_digits-digits n n (shift (suc w - len) value) rest (omega arith)
    ∙ ap (λ m. parse_digits (m + n) rest)
        (shift_split len (suc w) value (length-digits n n w (omega arith) fits))

-- The loop of ParseUint decides, but for the empty string and for what int64 cannot hold.
pub parse_int-parse_digits :
    (s : Str) (n : ℕ) → parse_digits 0 s ≡ ok n → 1 ≤ n → n < int64_limit → parse_int s ≡ ok n
unfolding parse_int parse_digits in_range
parse_int-parse_digits [] n e positive fits = ground arith
parse_int-parse_digits (c ∷ s) n e positive fits =
    let small : leb int64_limit n ≡ false = ground arith in rw (e, small) refl
