-- ===== src/Go/Json/Escapes.antt =====
-- Reading back the characters that encoding/json has written.
use epoxy.Base.{
  ℕ, ◌+◌, ◌*◌, ◌/◌, ◌%◌, ◌≤◌, ◌≡◌, refl, Str, true, false, [], ◌∷◌, ◌++◌, Option, none, some, arith,
  leb, same_byte,
}
use epoxy.Go.Json.{hex_digit, is_quotable, escaped}
use epoxy.Go.Json.Reader.{Literal, plain, digit, named, carried, coded, put, read}

-- `c`, read from the literal text `raw`, before what is read of the rest.
abbrev pub prepend : Str → Str → Option (Literal × Str) → Option (Literal × Str)
prepend raw t none = none
prepend raw t (some (l, rest)) = some (record { raw = raw ++ l.raw; text = t ++ l.text }, rest)

digit-hex_digit : (n : ℕ) → n ≤ 15 → digit (hex_digit n) ≡ some n
digit-hex_digit n h = ground arith

coded_ascii : (c : ℕ) → c ≤ 0x7f → coded 0 c ≡ c ∷ []
coded_ascii c h = ground arith

carried_ascii : (c : ℕ) → c ≤ 0x7f → carried c ≡ 0
carried_ascii c h = ground arith

prepend_puts :
    (a b c d e f x : ℕ) (r : Option (Literal × Str))
    → put a [] (put b [] (put c [] (put d [] (put e [] (put f (x ∷ []) r)))))
      ≡ prepend (a ∷ b ∷ c ∷ d ∷ e ∷ f ∷ []) (x ∷ []) r
prepend_puts a b c d e f x none = refl
prepend_puts a b c d e f x (some (l, rest)) = refl

nibbles : (c : ℕ) → (0 + c / 16) * 16 + c % 16 ≡ c
nibbles c = omega arith

read-code :
    (c : ℕ) (t : Str)
    → c ≤ 0x7f
    → read (plain 0) (b'\\' ∷ b'u' ∷ b'0' ∷ b'0' ∷ hex_digit (c / 16) ∷ hex_digit (c % 16) ∷ t)
      ≡ prepend
          (b'\\' ∷ b'u' ∷ b'0' ∷ b'0' ∷ hex_digit (c / 16) ∷ hex_digit (c % 16) ∷ [])
          (c ∷ [])
          (read (plain 0) t)
unfolding read
read-code c t h =
    simp
      (
        digit-hex_digit (c / 16) (omega arith),
        digit-hex_digit (c % 16) (omega arith),
        nibbles c,
        coded_ascii c h,
        carried_ascii c h,
      )
      (prepend_puts _ _ _ _ _ _ c (read (plain 0) t))

put_puts :
    (a b x : ℕ) (r : Option (Literal × Str))
    → put a [] (put b (x ∷ []) r) ≡ prepend (a ∷ b ∷ []) (x ∷ []) r
put_puts a b x none = refl
put_puts a b x (some (l, rest)) = refl

read-named :
    (d c : ℕ) (t : Str)
    → same_byte d b'u' ≡ false
    → named d ≡ some (c ∷ [])
    → read (plain 0) (b'\\' ∷ d ∷ t) ≡ prepend (b'\\' ∷ d ∷ []) (c ∷ []) (read (plain 0) t)
unfolding read
read-named d c t h e = simp (h, e) (put_puts b'\\' d c (read (plain 0) t))

put-prepend : (c : ℕ) (r : Option (Literal × Str)) → put c (c ∷ []) r ≡ prepend (c ∷ []) (c ∷ []) r
put-prepend c none = refl
put-prepend c (some (l, rest)) = refl

pub read-plain :
    (c : ℕ) (t : Str)
    → is_quotable c ≡ false
    → leb c 31 ≡ false
    → read (plain 0) (c ∷ t) ≡ prepend (c ∷ []) (c ∷ []) (read (plain 0) t)
unfolding read
read-plain c t h e = ground (arith, put-prepend c (read (plain 0) t))

pub read-escaped :
    (c : ℕ) (t : Str)
    → leb c 0x7f ≡ true
    → read (plain 0) (escaped c ++ t) ≡ prepend (escaped c) (c ∷ []) (read (plain 0) t)
unfolding escaped
read-escaped c t h = ground (
  arith,
  read-code c t,
  read-named c c t,
  read-named b'n' c t,
  read-named b'r' c t,
  read-named b't' c t,
  read-plain c t,
)
