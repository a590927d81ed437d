-- ===== src/Go/Json/Reader.antt =====
-- encoding/json: the reading of a string.
use epoxy.Base.{
  ℕ, zero, suc, ◌+◌, ◌-◌, ◌*◌, ◌/◌, ◌%◌, Str, Bool, ◌||◌, [], ◌∷◌, ◌++◌, Option, none, some, leb,
  same_byte, between, if◌then◌else◌,
}
use epoxy.Go.Utf8.{rune_size}

-- A string as it stands between its quotes, and what it means.
pub record Literal : Type 0 where
  pub raw : Str
  pub text : Str

-- U+FFFD
abbrev pub replacement : Str
replacement = 0xef ∷ 0xbf ∷ 0xbd ∷ []

-- Where the reader is within a string: outside escapes, behind a backslash, or before the last
-- `n` + 1 digits of a code. `high` is a first surrogate just read, of which nothing is written yet,
-- or 0.
pub data Place : Type 0 where
  plain : (high : ℕ) → Place
  behind_backslash : (high : ℕ) → Place
  in_code : (high n value : ℕ) → Place

abbrev pub digit : ℕ → Option ℕ
digit c =
    if between b'0' b'9' c
    then some (c - b'0')
    else if between b'a' b'f' c
    then some (c - 87)
    else if between b'A' b'F' c
    then some (c - 55)
    else none

-- What a character behind a backslash means.
abbrev pub named : ℕ → Option Str
named c =
    if same_byte c b'"' || same_byte c b'\\' || same_byte c b'/'
    then some (c ∷ [])
    else if same_byte c b'b'
    then some (8 ∷ [])
    else if same_byte c b'f'
    then some (12 ∷ [])
    else if same_byte c b'n'
    then some (10 ∷ [])
    else if same_byte c b'r'
    then some (13 ∷ [])
    else if same_byte c b't'
    then some (9 ∷ [])
    else none

abbrev pub is_high : ℕ → Bool
is_high = between 0xd800 0xdbff

abbrev pub is_low : ℕ → Bool
is_low = between 0xdc00 0xdfff

-- utf8.EncodeRune of a character that is no surrogate
abbrev pub character : ℕ → Str
character v =
    if leb v 0x7f
    then v ∷ []
    else if leb v 0x7ff
    then (0xc0 + v / 64) ∷ (0x80 + v % 64) ∷ []
    else if leb v 0xffff
    then (0xe0 + v / 4096) ∷ (0x80 + (v / 64) % 64) ∷ (0x80 + v % 64) ∷ []
    else (0xf0 + v / 262144)
      ∷ (0x80 + (v / 4096) % 64)
      ∷ (0x80 + (v / 64) % 64)
      ∷ (0x80 + v % 64)
      ∷ []

abbrev pub flushed : ℕ → Str
flushed high = if same_byte high 0 then [] else replacement

-- What is kept of a code for the next one.
abbrev pub carried : ℕ → ℕ
carried v = if is_high v then v else 0

-- The code `v` behind the surrogate `high`, if any.
abbrev pub coded : ℕ → ℕ → Str
coded high v =
    if is_low v
    then (if same_byte high 0
        then replacement
        else character (0x10000 + (high - 0xd800) * 1024 + (v - 0xdc00)))
    else if is_high v
    then flushed high
    else flushed high ++ character v

-- utf8.DecodeRune over what was read: a byte that is not UTF-8 becomes U+FFFD.
unfoldable pub coerced : ℕ → Str → Str
unfolding rune_size
coerced n [] = []
coerced (suc n) (c ∷ s) = c ∷ coerced n s
coerced zero (c ∷ s) =
    let rest = coerced (rune_size (c ∷ s) - 1) s in
    if same_byte (rune_size (c ∷ s)) 0 then replacement ++ rest else c ∷ rest

-- One more byte of the literal, and what it adds to the meaning.
abbrev pub put : ℕ → Str → Option (Literal × Str) → Option (Literal × Str)
put c t none = none
put c t (some (l, rest)) = some (record { raw = c ∷ l.raw; text = t ++ l.text }, rest)

abbrev pub when_some : {A : Type 0} → Option A → Option (Literal × Str) → Option (Literal × Str)
when_some none r = none
when_some (some a) r = r

abbrev pub or_none : Option Str → Str
or_none none = []
or_none (some t) = t

abbrev pub shifted : ℕ → Option ℕ → ℕ
shifted v none = v
shifted v (some d) = v * 16 + d

-- The contents of a string, up to the '"' that ends it, and what follows.
unfoldable pub read : Place → Str → Option (Literal × Str)
read place [] = none
read (plain high) (c ∷ s) =
    let escape = same_byte c b'\\' in
    let rest = read (if escape then behind_backslash high else plain 0) s in
    if same_byte c b'"'
    then some (record { raw = []; text = flushed high }, s)
    else if leb c 31
    then none
    else put c (if escape then [] else flushed high ++ c ∷ []) rest
read (behind_backslash high) (c ∷ s) =
    let code = same_byte c b'u' in
    let rest = read (if code then in_code high 3 0 else plain 0) s in
    if code
    then put c [] rest
    else when_some (named c) (put c (flushed high ++ or_none (named c)) rest)
read (in_code high zero v) (c ∷ s) =
    let code = shifted v (digit c) in
    when_some (digit c) (put c (coded high code) (read (plain (carried code)) s))
read (in_code high (suc n) v) (c ∷ s) =
    when_some (digit c) (put c [] (read (in_code high n (shifted v (digit c))) s))

abbrev pub coerce : Option (Literal × Str) → Option (Literal × Str)
coerce none = none
coerce (some (l, rest)) = some (record l { text = coerced 0 l.text }, rest)

-- The rest of a string, behind its first '"'.
unfoldable pub read_string : Str → Option (Literal × Str)
unfolding read coerced
read_string s = coerce (read (plain 0) s)
