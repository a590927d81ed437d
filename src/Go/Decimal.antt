-- ===== src/Go/Decimal.antt =====
-- Decimal numbers: the verb %0Nd of package fmt, and strconv.ParseInt(s, 10, 64) for a string without
-- a sign.
pub mod Padded
use epoxy.Base.{
  ℕ, zero, suc, ◌+◌, ◌-◌, ◌*◌, ◌/◌, ◌%◌, Str, ascii, Bool, true, false, List, [], ◌∷◌, ◌++◌, Error,
  external, Result, ok, err, leb, between, length, if◌then◌else◌,
}

-- The digits of `n`, for a fuel that is not below `n`.
unfoldable pub digits : ℕ → ℕ → Str
digits zero n = (48 + n % 10) ∷ []
digits (suc fuel) n =
    let upper = digits fuel (n / 10) in
    if leb 10 n then upper ++ ((48 + n % 10) ∷ []) else (48 + n % 10) ∷ []

unfoldable pub zeros : ℕ → Str
zeros zero = []
zeros (suc n) = 48 ∷ zeros n

-- fmt.Sprintf("%0<width>d", n)
unfoldable pub padded : ℕ → ℕ → Str
padded width n = zeros (width - length (digits n n)) ++ digits n n

-- The loop of ParseUint, less its tests for overflow, which `parse_int` makes at its end.
unfoldable pub parse_digits : ℕ → Str → Result ℕ
parse_digits value [] = ok value
parse_digits value (c ∷ s) =
    let rest = parse_digits (value * 10 + (c - 48)) s in
    if between b'0' b'9' c then rest else err (external (ascii "invalid syntax"))

abbrev pub int64_limit : ℕ
int64_limit = 9_223_372_036_854_775_808

in_range : Result ℕ → Result ℕ
in_range (ok value) =
    if leb int64_limit value then err (external (ascii "value out of range")) else ok value
in_range (err e) = err e

unfoldable pub parse_int : Str → Result ℕ
unfolding in_range
parse_int [] = err (external (ascii "invalid syntax"))
parse_int (c ∷ s) = in_range (parse_digits 0 (c ∷ s))
