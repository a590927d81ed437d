-- ===== src/Go/Json.antt =====
-- encoding/json: what MarshalIndent writes, with four spaces of indentation.
pub mod Reader
pub mod Escapes
pub mod Quoted
pub mod Reads
pub mod Objects
pub mod Ends
pub mod Terminates
pub mod Parse
use epoxy.Base.{
  ℕ, zero, suc, ◌+◌, ◌-◌, ◌/◌, ◌%◌, Str, ascii, Bool, true, false, not, ◌&&◌, ◌||◌, List, [], ◌∷◌,
  ◌++◌, leb, same_byte, if◌then◌else◌,
}
use epoxy.Go.Utf8.{rune_size}

abbrev pub hex_digit : ℕ → ℕ
hex_digit n = if leb n 9 then b'0' + n else 87 + n

abbrev pub is_quotable : ℕ → Bool
is_quotable c = same_byte c b'"' || same_byte c b'\\'

abbrev pub is_coded : ℕ → Bool
is_coded c = leb c 31 || same_byte c b'<' || same_byte c b'>' || same_byte c b'&'

-- An ASCII character of a string.
unfoldable pub escaped : ℕ → Str
escaped c =
    if is_quotable c
    then b'\\' ∷ c ∷ []
    else if same_byte c b'\n'
    then b'\\' ∷ b'n' ∷ []
    else if same_byte c b'\r'
    then b'\\' ∷ b'r' ∷ []
    else if same_byte c b'\t'
    then b'\\' ∷ b't' ∷ []
    else if is_coded c
    then b'\\' ∷ b'u' ∷ b'0' ∷ b'0' ∷ hex_digit (c / 16) ∷ hex_digit (c % 16) ∷ []
    else c ∷ []

-- U+2028 or U+2029
unfoldable pub is_separator : Str → Bool
is_separator (a ∷ b ∷ c ∷ s) =
    same_byte a 0xe2 && same_byte b 0x80 && (same_byte c 0xa8 || same_byte c 0xa9)
is_separator _ = false

-- The digit at the end of the escape for a separator.
unfoldable pub separator_digit : Str → ℕ
separator_digit (a ∷ b ∷ c ∷ s) = if same_byte c 0xa8 then b'8' else b'9'
separator_digit _ = b'9'

-- What is written at the first byte of a rune, or for a byte that is not UTF-8.
unfoldable pub rune_text : ℕ → Str → Str
rune_text c s =
    if leb c 0x7f
    then escaped c
    else if same_byte (rune_size (c ∷ s)) 0
    then b'\\' ∷ b'u' ∷ b'f' ∷ b'f' ∷ b'f' ∷ b'd' ∷ []
    else if is_separator (c ∷ s)
    then b'\\' ∷ b'u' ∷ b'2' ∷ b'0' ∷ b'2' ∷ separator_digit (c ∷ s) ∷ []
    else c ∷ []

-- The contents of a string, of which `n` bytes belong to a rune that has begun; they are copied
-- unless an escape stands for the rune.
unfoldable pub contents : ℕ → Bool → Str → Str
contents n copied [] = []
contents (suc n) copied (c ∷ s) =
    let rest = contents n copied s in if copied then c ∷ rest else rest
contents zero copied (c ∷ s) =
    rune_text c s ++ contents (rune_size (c ∷ s) - 1) (not (is_separator (c ∷ s))) s

unfoldable pub quote : Str → Str
unfolding contents rune_text escaped rune_size is_separator separator_digit
quote s = b'"' ∷ (contents 0 true s ++ b'"' ∷ [])

abbrev pub indent : ℕ → Str
indent zero = []
indent (suc depth) = 32 ∷ 32 ∷ 32 ∷ 32 ∷ indent depth

-- The members of an object, from behind the first indentation.
unfoldable pub members : ℕ → Str × Str → List (Str × Str) → Str
unfolding quote
members depth (key, value) [] = quote key ++ (b':' ∷ 32 ∷ value)
members depth (key, value) (next ∷ rest) =
    quote key ++ (b':' ∷ 32 ∷ (value ++ (b',' ∷ b'\n' ∷ (indent depth ++ members depth next rest))))

-- An object at a depth, of keys and the texts of their values.
unfoldable pub object : ℕ → List (Str × Str) → Str
unfolding members
object depth [] = b'{' ∷ b'}' ∷ []
object depth (first ∷ rest) =
    b'{'
    ∷ b'\n'
    ∷ (indent (suc depth)
        ++ (members (suc depth) first rest ++ (b'\n' ∷ (indent depth ++ b'}' ∷ []))))
