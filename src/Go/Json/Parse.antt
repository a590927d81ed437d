-- ===== src/Go/Json/Parse.antt =====
-- encoding/json: the syntax that Unmarshal accepts, and what it finds there. The nesting of objects
-- and arrays is not bounded, while encoding/json stops at a depth of 10000.
use epoxy.Base.{
  ℕ, zero, suc, ◌+◌, ◌*◌, Str, ascii, Bool, true, false, ◌||◌, [], ◌∷◌, Option, none, some, length,
  same_byte, between, if◌then◌else◌,
}
use epoxy.Go.Json.Reader.{Literal, read_string}

-- Numbers and arrays are not looked into by the source.
mutual
  pub data Value : Type 0 where
    null number array : Value
    boolean : Bool → Value
    string : Literal → Value
    object : Members → Value

  pub data Members : Type 0 where
    no_members : Members
    member : Literal → Value → Members → Members

-- `out_of_fuel` has no counterpart in the program.
pub data Parsed (A : Type 0) : Type 0 where
  parsed : A → Parsed A
  failed out_of_fuel : Parsed A

module _ {A B : Type 0} where
  infixl 5 ◌>>=◌
  abbrev pub ◌>>=◌ : Parsed A → (A → Parsed B) → Parsed B
  parsed a >>= f = f a
  failed >>= f = failed
  out_of_fuel >>= f = out_of_fuel

abbrev pub of_option : {A : Type 0} → Option A → Parsed A
of_option none = failed
of_option (some a) = parsed a

abbrev pub is_space : ℕ → Bool
is_space c = same_byte c 32 || same_byte c 9 || same_byte c 10 || same_byte c 13

unfoldable pub skip_space : Str → Str
skip_space [] = []
skip_space (c ∷ s) = let rest = skip_space s in if is_space c then rest else c ∷ s

-- What follows the byte `c`, which must stand first.
abbrev pub expect : ℕ → Str → Parsed Str
expect c [] = failed
expect c (d ∷ s) = if same_byte d c then parsed s else failed

unfoldable pub expect_all : Str → Str → Parsed Str
expect_all [] s = parsed s
expect_all (c ∷ word) s = do rest ← expect c s; expect_all word rest

abbrev pub is_digit : ℕ → Bool
is_digit = between b'0' b'9'

unfoldable pub skip_digits : Str → Str
skip_digits [] = []
skip_digits (c ∷ s) = let rest = skip_digits s in if is_digit c then rest else c ∷ s

abbrev pub some_digits : Str → Parsed Str
some_digits [] = failed
some_digits (c ∷ s) = if is_digit c then parsed (skip_digits s) else failed

abbrev pub integer : Str → Parsed Str
integer [] = failed
integer (c ∷ s) =
    if same_byte c b'0' then parsed s else if is_digit c then parsed (skip_digits s) else failed

abbrev pub fraction : Str → Parsed Str
fraction [] = parsed []
fraction (c ∷ s) = if same_byte c b'.' then some_digits s else parsed (c ∷ s)

abbrev pub signed_digits : Str → Parsed Str
signed_digits [] = failed
signed_digits (c ∷ s) =
    if same_byte c b'+' || same_byte c b'-' then some_digits s else some_digits (c ∷ s)

abbrev pub exponent : Str → Parsed Str
exponent [] = parsed []
exponent (c ∷ s) = if same_byte c b'e' || same_byte c b'E' then signed_digits s else parsed (c ∷ s)

-- What follows a number whose integer part begins there.
unfoldable pub parse_number : Str → Parsed Str
unfolding skip_digits
parse_number s = do
  behind_integer ← integer s
  behind_fraction ← fraction behind_integer
  exponent behind_fraction

unfoldable pub parse_scalar : ℕ → Str → Parsed (Value × Str)
unfolding parse_number expect_all ascii
parse_scalar c s =
    if same_byte c b'"'
    then (of_option (read_string s) >>= λ (l, rest). parsed (string l, rest))
    else if same_byte c b't'
    then (expect_all (ascii "rue") s >>= λ rest. parsed (boolean true, rest))
    else if same_byte c b'f'
    then (expect_all (ascii "alse") s >>= λ rest. parsed (boolean false, rest))
    else if same_byte c b'n'
    then (expect_all (ascii "ull") s >>= λ rest. parsed (null, rest))
    else if same_byte c b'-'
    then (parse_number s >>= λ rest. parsed (number, rest))
    else (parse_number (c ∷ s) >>= λ rest. parsed (number, rest))

-- What a call leaves of the text is not a structural part of it, so each call costs a unit of fuel.
unfoldable mutual
  pub parse_value : ℕ → Str → Parsed (Value × Str)
  parse_value fuel [] = failed
  parse_value zero (c ∷ s) = out_of_fuel
  parse_value (suc fuel) (c ∷ s) =
      let fields = parse_object fuel (skip_space s) in
      let items = parse_array fuel (skip_space s) in
      if same_byte c b'{' then fields else if same_byte c b'[' then items else parse_scalar c s

  -- Behind a '{' and the space there.
  pub parse_object : ℕ → Str → Parsed (Value × Str)
  parse_object fuel [] = failed
  parse_object zero (c ∷ s) = out_of_fuel
  parse_object (suc fuel) (c ∷ s) =
      let some_members = parse_members fuel (c ∷ s) >>= λ (ms, rest). parsed (object ms, rest) in
      if same_byte c b'}' then parsed (object no_members, s) else some_members

  pub parse_members : ℕ → Str → Parsed (Members × Str)
  parse_members fuel [] = failed
  parse_members zero (c ∷ s) = out_of_fuel
  parse_members (suc fuel) (c ∷ s) = do
    opened ← expect b'"' (c ∷ s)
    (key, behind_key) ← of_option (read_string opened)
    behind_colon ← expect b':' (skip_space behind_key)
    (v, behind_value) ← parse_value fuel (skip_space behind_colon)
    more_members fuel key v (skip_space behind_value)

  pub more_members : ℕ → Literal → Value → Str → Parsed (Members × Str)
  more_members fuel key v [] = failed
  more_members zero key v (c ∷ s) = out_of_fuel
  more_members (suc fuel) key v (c ∷ s) =
      let next =
        parse_members fuel (skip_space s) >>= λ (ms, rest). parsed (member key v ms, rest) in
      if same_byte c b'}'
      then parsed (member key v no_members, s)
      else if same_byte c b','
      then next
      else failed

  -- Behind a '[' and the space there.
  pub parse_array : ℕ → Str → Parsed (Value × Str)
  parse_array fuel [] = failed
  parse_array zero (c ∷ s) = out_of_fuel
  parse_array (suc fuel) (c ∷ s) =
      let items = parse_items fuel (c ∷ s) in if same_byte c b']' then parsed (array, s) else items

  pub parse_items : ℕ → Str → Parsed (Value × Str)
  parse_items fuel [] = failed
  parse_items zero (c ∷ s) = out_of_fuel
  parse_items (suc fuel) (c ∷ s) = do
    (v, behind_value) ← parse_value fuel (c ∷ s)
    more_items fuel (skip_space behind_value)

  pub more_items : ℕ → Str → Parsed (Value × Str)
  more_items fuel [] = failed
  more_items zero (c ∷ s) = out_of_fuel
  more_items (suc fuel) (c ∷ s) =
      let next = parse_items fuel (skip_space s) in
      if same_byte c b']' then parsed (array, s) else if same_byte c b',' then next else failed

abbrev pub end_of_text : Value → Str → Parsed Value
end_of_text v [] = parsed v
end_of_text v (c ∷ s) = failed

-- A whole text.
unfoldable pub parse : Str → Parsed Value
unfolding parse_value skip_space
parse s = do
  (v, rest) ← parse_value (2 + 3 * length s) (skip_space s)
  end_of_text v (skip_space rest)
