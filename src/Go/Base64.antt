-- ===== src/Go/Base64.antt =====
-- encoding/base64: RawURLEncoding, which does not pad.
pub mod RoundTrip
use epoxy.Base.{ℕ, ◌+◌, ◌-◌, ◌*◌, ◌/◌, ◌%◌, Str, [], ◌∷◌, leb, same_byte, if◌then◌else◌}

-- The alphabet A-Z a-z 0-9 - _
unfoldable pub digit : ℕ → ℕ
digit v =
    if leb v 25
    then v + 65
    else if leb v 51
    then v + 71
    else if leb v 61
    then v - 4
    else if same_byte v 62
    then b'-'
    else b'_'

unfoldable pub encode : Str → Str
unfolding digit
encode [] = []
encode (a ∷ []) = digit (a / 4) ∷ digit (a % 4 * 16) ∷ []
encode (a ∷ b ∷ []) = digit (a / 4) ∷ digit (a % 4 * 16 + b / 16) ∷ digit (b % 16 * 4) ∷ []
encode (a ∷ b ∷ c ∷ s) =
    digit (a / 4)
    ∷ digit (a % 4 * 16 + b / 16)
    ∷ digit (b % 16 * 4 + c / 64)
    ∷ digit (c % 64)
    ∷ encode s
