-- ===== src/Go/Utf8.antt =====
-- unicode/utf8.
pub mod Runes
use epoxy.Base.{
  ℕ, zero, suc, ◌-◌, Str, Bool, true, false, ◌&&◌, ◌||◌, [], ◌∷◌, same_byte, leb, between,
  if◌then◌else◌,
}

unfoldable pub continuation : ℕ → Bool
continuation = between 0x80 0xbf

-- The second byte that may follow a first byte of a sequence of three or four bytes.
unfoldable pub second : ℕ → ℕ → Bool
second first b =
    (same_byte first 0xe0 && between 0xa0 0xbf b)
    || (same_byte first 0xed && between 0x80 0x9f b)
    || (same_byte first 0xf0 && between 0x90 0xbf b)
    || (same_byte first 0xf4 && between 0x80 0x8f b)
    || ((between 0xe1 0xec first || between 0xee 0xef first || between 0xf1 0xf3 first)
        && continuation b)

-- Whether `n` continuation bytes follow.
unfoldable pub follows : ℕ → Str → Bool
unfolding continuation
follows zero s = true
follows (suc n) [] = false
follows (suc n) (c ∷ s) = continuation c && follows n s

-- Whether a second byte for `a` and `n` continuation bytes follow.
unfoldable pub follows_first : ℕ → ℕ → Str → Bool
unfolding second follows
follows_first a n [] = false
follows_first a n (b ∷ s) = second a b && follows n s

-- The number of bytes of the first rune, or 0 if it is not encoded as UTF-8.
unfoldable pub rune_size : Str → ℕ
unfolding follows follows_first
rune_size [] = 0
rune_size (a ∷ s) =
    if leb a 0x7f
    then 1
    else if between 0xc2 0xdf a && follows 1 s
    then 2
    else if between 0xe0 0xef a && follows_first a 1 s
    then 3
    else if between 0xf0 0xf4 a && follows_first a 2 s
    then 4
    else 0

-- Whether what is behind the next `n` bytes is UTF-8.
unfoldable pub valid_behind : ℕ → Str → Bool
unfolding rune_size
valid_behind n [] = true
valid_behind (suc n) (c ∷ s) = valid_behind n s
valid_behind zero (c ∷ s) = let size = rune_size (c ∷ s) in leb 1 size && valid_behind (size - 1) s

-- ValidString(s)
unfoldable pub valid_string : Str → Bool
unfolding valid_behind
valid_string s = valid_behind 0 s
