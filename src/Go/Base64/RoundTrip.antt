-- ===== src/Go/Base64/RoundTrip.antt =====
-- encoding/base64: decoding after encoding, and the alphabet of RawURLEncoding.
use epoxy.Base.{
  ℕ, ◌+◌, ◌-◌, ◌*◌, ◌/◌, ◌%◌, ◌<◌, ◌≡◌, refl, ap, sym, ◌∙◌, Str, [], ◌∷◌, leb, same_byte,
  if◌then◌else◌, All, arith, Bool, ◌||◌, true, between,
}
use epoxy.Go.Base64.{digit, encode}

undigit : ℕ → ℕ
undigit c =
    if same_byte c b'-'
    then 62
    else if same_byte c b'_'
    then 63
    else if leb c 57
    then c + 4
    else if leb c 90
    then c - 65
    else c - 71

undigit-digit : (v : ℕ) → v < 64 → undigit (digit v) ≡ v
unfolding undigit digit
undigit-digit v h = ground arith

decode : Str → Str
decode [] = []
decode (p ∷ []) = []
decode (p ∷ q ∷ []) = (undigit p * 4 + undigit q / 16) ∷ []
decode (p ∷ q ∷ r ∷ []) =
    (undigit p * 4 + undigit q / 16) ∷ (undigit q % 16 * 16 + undigit r / 4) ∷ []
decode (p ∷ q ∷ r ∷ t ∷ s) =
    (undigit p * 4 + undigit q / 16)
    ∷ (undigit q % 16 * 16 + undigit r / 4)
    ∷ (undigit r % 4 * 64 + undigit t)
    ∷ decode s

abbrev pub AreBytes : Str → Type 0
AreBytes = All (λ b. b < 256)

first_byte :
    (a b : ℕ)
    → a < 256
    → b < 256
    → undigit (digit (a / 4)) * 4 + undigit (digit (a % 4 * 16 + b / 16)) / 16 ≡ a
first_byte a b h k =
    rw (undigit-digit (a / 4) (omega arith), undigit-digit (a % 4 * 16 + b / 16) (omega arith))
      (omega arith)

second_byte :
    (a b c : ℕ)
    → a < 256
    → b < 256
    → c < 256
    → undigit (digit (a % 4 * 16 + b / 16)) % 16 * 16 + undigit (digit (b % 16 * 4 + c / 64)) / 4
      ≡ b
second_byte a b c h k l =
    rw
      (
        undigit-digit (a % 4 * 16 + b / 16) (omega arith),
        undigit-digit (b % 16 * 4 + c / 64) (omega arith),
      )
      (omega arith)

third_byte :
    (b c : ℕ)
    → b < 256
    → c < 256
    → undigit (digit (b % 16 * 4 + c / 64)) % 4 * 64 + undigit (digit (c % 64)) ≡ c
third_byte b c k l =
    rw (undigit-digit (b % 16 * 4 + c / 64) (omega arith), undigit-digit (c % 64) (omega arith))
      (omega arith)

last_byte : (a : ℕ) → a < 256 → undigit (digit (a / 4)) * 4 + undigit (digit (a % 4 * 16)) / 16 ≡ a
last_byte a h =
    rw (undigit-digit (a / 4) (omega arith), undigit-digit (a % 4 * 16) (omega arith)) (omega arith)

last_second :
    (a b : ℕ)
    → a < 256
    → b < 256
    → undigit (digit (a % 4 * 16 + b / 16)) % 16 * 16 + undigit (digit (b % 16 * 4)) / 4 ≡ b
last_second a b h k =
    rw (undigit-digit (a % 4 * 16 + b / 16) (omega arith), undigit-digit (b % 16 * 4) (omega arith))
      (omega arith)

decode-encode : (s : Str) → AreBytes s → decode (encode s) ≡ s
unfolding decode encode
decode-encode [] h = refl
decode-encode (a ∷ []) (ha, h) = cc (last_byte a ha)
decode-encode (a ∷ b ∷ []) h = cc (first_byte a b h.0 h.1.0, last_second a b h.0 h.1.0)
decode-encode (a ∷ b ∷ c ∷ s) h = cc (
  first_byte a b h.0 h.1.0,
  second_byte a b c h.0 h.1.0 h.1.1.0,
  third_byte b c h.1.0 h.1.1.0,
  decode-encode s h.1.1.1,
)

pub encode-injective : (s t : Str) → AreBytes s → AreBytes t → encode s ≡ encode t → s ≡ t
encode-injective s t hs ht e = sym (decode-encode s hs) ∙ ap decode e ∙ decode-encode t ht

-- The URL-safe alphabet: letters, digits, "-" and "_".
pub is_url_safe : ℕ → Bool
is_url_safe c =
    between b'A' b'Z' c
    || between b'a' b'z' c
    || between b'0' b'9' c
    || same_byte c b'-'
    || same_byte c b'_'

digit-is_url_safe : (v : ℕ) → v < 64 → is_url_safe (digit v) ≡ true
unfolding is_url_safe digit
digit-is_url_safe v h = ground arith

pub encode-is_url_safe : (s : Str) → AreBytes s → All (λ c. is_url_safe c ≡ true) (encode s)
unfolding encode
encode-is_url_safe [] h = tt
encode-is_url_safe (a ∷ []) h =
    ground (arith, digit-is_url_safe (a / 4), digit-is_url_safe (a % 4 * 16))
encode-is_url_safe (a ∷ b ∷ []) h = ground (
  arith,
  digit-is_url_safe (a / 4),
  digit-is_url_safe (a % 4 * 16 + b / 16),
  digit-is_url_safe (b % 16 * 4),
)
encode-is_url_safe (a ∷ b ∷ c ∷ s) h = ground (
  arith,
  digit-is_url_safe (a / 4),
  digit-is_url_safe (a % 4 * 16 + b / 16),
  digit-is_url_safe (b % 16 * 4 + c / 64),
  digit-is_url_safe (c % 64),
  encode-is_url_safe s h.1.1.1,
)
