-- ===== src/Go/Hex.antt =====
-- encoding/hex: DecodeString.
use epoxy.Base.{ℕ, ◌+◌, ◌-◌, ◌*◌, Str, Option, none, some, [], ◌∷◌, between, if◌then◌else◌}

digit : ℕ → Option ℕ
digit c =
    if between b'0' b'9' c
    then some (c - 48)
    else if between b'a' b'f' c
    then some (c - 87)
    else if between b'A' b'F' c
    then some (c - 55)
    else none

abbrev both : Option ℕ → Option ℕ → Option Str → Option Str
both (some hi) (some lo) (some rest) = some ((hi * 16 + lo) ∷ rest)
both _ _ _ = none

-- `none` for an odd length or a character that is no digit
unfoldable pub decode : Str → Option Str
unfolding digit
decode [] = some []
decode (a ∷ []) = none
decode (a ∷ b ∷ s) = both (digit a) (digit b) (decode s)
