-- ===== src/Go/Strings.antt =====
-- The functions of package strings that the source calls.
pub mod Paths
use mathlib.Core.List.{reverse}
use epoxy.Base.{
  ◌==◌, ℕ, zero, suc, ◌-◌, Str, Bool, true, false, ◌&&◌, ◌||◌, List, [], ◌∷◌, ◌++◌, map, same_byte,
  length, if◌then◌else◌,
}

-- HasPrefix(s, prefix)
unfoldable pub has_prefix : Str → Str → Bool
has_prefix s [] = true
has_prefix [] (p ∷ prefix) = false
has_prefix (b ∷ s) (p ∷ prefix) = same_byte b p && has_prefix s prefix

-- Contains(s, substr)
unfoldable pub contains : Str → Str → Bool
contains [] substr = has_prefix [] substr
contains (b ∷ s) substr = has_prefix (b ∷ s) substr || contains s substr

-- s[n:]
unfoldable pub drop : ℕ → Str → Str
drop zero s = s
drop (suc n) [] = []
drop (suc n) (b ∷ s) = drop n s

-- Adds a byte to the first piece.
abbrev pub push : ℕ → List Str → List Str
push b [] = (b ∷ []) ∷ []
push b (p ∷ ps) = (b ∷ p) ∷ ps

-- The loop of Split: `skip` bytes of a separator are still to be passed over.
unfoldable pub split_from : Str → ℕ → Str → List Str
split_from sep skip [] = [] ∷ []
split_from sep (suc skip) (b ∷ s) = split_from sep skip s
split_from sep zero (b ∷ s) =
    let cut = [] ∷ split_from sep (length sep - 1) s in
    let longer = push b (split_from sep zero s) in if has_prefix (b ∷ s) sep then cut else longer

-- Split(s, sep), for a separator that is not empty
unfoldable pub split : Str → Str → List Str
unfolding split_from has_prefix
split s sep = split_from sep 0 s

-- SplitN(s, sep, 2), for a separator of one byte
unfoldable pub split_pair : Str → ℕ → List Str
split_pair [] sep = [] ∷ []
split_pair (b ∷ s) sep = if same_byte b sep then [] ∷ s ∷ [] else push b (split_pair s sep)

-- Join(parts, sep)
unfoldable pub join : List Str → Str → Str
join [] sep = []
join (p ∷ []) sep = p
join (p ∷ q ∷ ps) sep = p ++ (sep ++ join (q ∷ ps) sep)

-- Replace(s, old, new, 1), for an `old` that is not empty
unfoldable pub replace_first : Str → Str → Str → Str
replace_first [] old new = []
replace_first (b ∷ s) old new =
    let rest = replace_first s old new in
    if has_prefix (b ∷ s) old then new ++ drop (length old) (b ∷ s) else b ∷ rest

-- Trim(s, cutset), for a cutset of ASCII bytes
unfoldable pub trim_left : (ℕ → Bool) → Str → Str
trim_left cut [] = []
trim_left cut (b ∷ s) = let rest = trim_left cut s in if cut b then rest else b ∷ s

abbrev pub keep_end : (ℕ → Bool) → ℕ → Str → Str
keep_end cut b [] = if cut b then [] else b ∷ []
keep_end cut b (c ∷ rest) = b ∷ c ∷ rest

unfoldable pub trim_right : (ℕ → Bool) → Str → Str
trim_right cut [] = []
trim_right cut (b ∷ s) = keep_end cut b (trim_right cut s)

unfoldable pub trim : (ℕ → Bool) → Str → Str
unfolding trim_left trim_right
trim cut s = trim_right cut (trim_left cut s)

-- The white space of Unicode, in UTF-8: what `unicode.IsSpace` accepts.
spaces : List Str
spaces =
    (9 ∷ [])
    ∷ (10 ∷ [])
    ∷ (11 ∷ [])
    ∷ (12 ∷ [])
    ∷ (13 ∷ [])
    ∷ (32 ∷ [])
    ∷ (0xc2 ∷ 0x85 ∷ [])
    ∷ (0xc2 ∷ 0xa0 ∷ [])
    ∷ (0xe1 ∷ 0x9a ∷ 0x80 ∷ [])
    ∷ (0xe2 ∷ 0x80 ∷ 0x80 ∷ [])
    ∷ (0xe2 ∷ 0x80 ∷ 0x81 ∷ [])
    ∷ (0xe2 ∷ 0x80 ∷ 0x82 ∷ [])
    ∷ (0xe2 ∷ 0x80 ∷ 0x83 ∷ [])
    ∷ (0xe2 ∷ 0x80 ∷ 0x84 ∷ [])
    ∷ (0xe2 ∷ 0x80 ∷ 0x85 ∷ [])
    ∷ (0xe2 ∷ 0x80 ∷ 0x86 ∷ [])
    ∷ (0xe2 ∷ 0x80 ∷ 0x87 ∷ [])
    ∷ (0xe2 ∷ 0x80 ∷ 0x88 ∷ [])
    ∷ (0xe2 ∷ 0x80 ∷ 0x89 ∷ [])
    ∷ (0xe2 ∷ 0x80 ∷ 0x8a ∷ [])
    ∷ (0xe2 ∷ 0x80 ∷ 0xa8 ∷ [])
    ∷ (0xe2 ∷ 0x80 ∷ 0xa9 ∷ [])
    ∷ (0xe2 ∷ 0x80 ∷ 0xaf ∷ [])
    ∷ (0xe2 ∷ 0x81 ∷ 0x9f ∷ [])
    ∷ (0xe3 ∷ 0x80 ∷ 0x80 ∷ [])
    ∷ []

-- The length of the first pattern that begins `s`, or 0.
leading : List Str → Str → ℕ
leading [] s = 0
leading (p ∷ ps) s = if has_prefix s p then length p else leading ps s

strip : List Str → ℕ → Str → Str
strip patterns skip [] = []
strip patterns (suc skip) (b ∷ s) = strip patterns skip s
strip patterns zero (b ∷ s) = elim (leading patterns (b ∷ s)) [
  | zero ↦ b ∷ s
  | suc skip ↦ strip patterns skip s
]

-- TrimSpace(s)
unfoldable pub trim_space : Str → Str
unfolding strip leading spaces has_prefix
trim_space s = reverse (strip (map reverse spaces) 0 (reverse (strip spaces 0 s)))

-- path.Base(s)
abbrev pub is_slash : ℕ → Bool
is_slash b = same_byte b b'/'

unfoldable pub after_last_slash : Str → Str → Str
after_last_slash acc [] = reverse acc
after_last_slash acc (b ∷ s) = after_last_slash (if is_slash b then [] else b ∷ acc) s

unfoldable pub path_base : Str → Str
unfolding trim_right after_last_slash ◌==◌
path_base s =
    let base = after_last_slash [] (trim_right is_slash s) in
    if s == [] then b'.' ∷ [] else if base == [] then b'/' ∷ [] else base
