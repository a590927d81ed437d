-- ===== src/Go/Fmt.antt =====
-- fmt.Fprintf(w, format) with no operands: every verb but "%%" lacks its operand.
pub mod Plain
use epoxy.Base.{
  ℕ, zero, suc, ◌+◌, ◌-◌, ◌*◌, Str, ascii, ◌==◌, Bool, true, false, ◌&&◌, ◌||◌, not, Option, none,
  some, [], ◌∷◌, ◌++◌, leb, same_byte, between, length, if◌then◌else◌,
}
use epoxy.Go.Utf8.{valid_string}

is_flag : ℕ → Bool
is_flag c =
    same_byte c b'#' || same_byte c b'0' || same_byte c b'+' || same_byte c b'-' || same_byte c 32

skip_flags : Str → Str
skip_flags [] = []
skip_flags (c ∷ s) = let rest = skip_flags s in if is_flag c then rest else c ∷ s

-- parsenum: whether a number stands there, and the rest. A number that is too large takes all.
parse_num : ℕ → Bool → Str → Bool × Str
parse_num num is_num [] = (is_num, [])
parse_num num is_num (c ∷ s) =
    let longer = parse_num (num * 10 + (c - 48)) true s in
    if between b'0' b'9' c
    then (if leb num 1_000_000 then longer else (false, []))
    else (is_num, c ∷ s)

-- What stands before the first ']', and after it.
find_close : Str → Option (Str × Str)
find_close [] = none
find_close (c ∷ s) = elim (find_close s) [
  | none ↦ if same_byte c b']' then some ([], s) else none
  | some (inner, rest) ↦ if same_byte c b']' then some ([], s) else some (c ∷ inner, rest)
]

-- argNumber: whether the index is bad (with no operands any is), whether one stands there, the rest.
index_in : Str → Option (Str × Str) → Bool × Bool × Str
index_in s none = (true, false, s)
index_in s (some (inner, rest)) =
    let (is_num, left) = parse_num 0 false inner in (true, is_num && left == [], rest)

arg_number : Str → Bool × Bool × Str
arg_number [] = (false, false, [])
arg_number (c ∷ s) =
    if same_byte c b'['
    then (if leb 2 (length s) then index_in s (find_close s) else (true, false, s))
    else (false, false, c ∷ s)

-- A '*', whose operand is missing, or a number: what is printed, whether it was a '*', whether a
-- number stands there, the rest.
star_or_num : Str → Str → Str × Bool × Bool × Str
star_or_num missing [] = ([], false, false, [])
star_or_num missing (c ∷ s) =
    let (is_num, rest) = parse_num 0 false (c ∷ s) in
    if same_byte c b'*' then (missing, true, false, s) else ([], false, is_num, rest)

-- The first rune, re-encoded, and the rest: an invalid byte becomes U+FFFD.
rune : Str → Str × Str
rune (a ∷ s) = if leb a 0x7f then (a ∷ [], s) else long (a ∷ s)
  where
    long : Str → Str × Str
    long (a ∷ b ∷ []) =
        if valid_string (a ∷ b ∷ []) then (a ∷ b ∷ [], []) else (0xef ∷ 0xbf ∷ 0xbd ∷ [], b ∷ [])
    long (a ∷ b ∷ c ∷ []) =
        if valid_string (a ∷ b ∷ [])
        then (a ∷ b ∷ [], c ∷ [])
        else if valid_string (a ∷ b ∷ c ∷ [])
        then (a ∷ b ∷ c ∷ [], [])
        else (0xef ∷ 0xbf ∷ 0xbd ∷ [], b ∷ c ∷ [])
    long (a ∷ b ∷ c ∷ d ∷ s) =
        if valid_string (a ∷ b ∷ [])
        then (a ∷ b ∷ [], c ∷ d ∷ s)
        else if valid_string (a ∷ b ∷ c ∷ [])
        then (a ∷ b ∷ c ∷ [], d ∷ s)
        else if valid_string (a ∷ b ∷ c ∷ d ∷ [])
        then (a ∷ b ∷ c ∷ d ∷ [], s)
        else (0xef ∷ 0xbf ∷ 0xbd ∷ [], b ∷ c ∷ d ∷ s)
    long (a ∷ s) = (0xef ∷ 0xbf ∷ 0xbd ∷ [], s)
    long [] = ([], [])
rune [] = ([], [])

-- The verb: what is printed, and the rest.
verb : Bool → Str → Str × Str
verb bad [] = (ascii "%!(NOVERB)", [])
verb bad (c ∷ s) =
    let (r, rest) = rune (c ∷ s) in
    let why = if bad then ascii "(BADINDEX)" else ascii "(MISSING)" in
    if same_byte c b'%' then (b'%' ∷ [], s) else (ascii "%!" ++ (r ++ why), rest)

-- The precision, behind a '.', and whether an index stands before the verb.
precision : Bool → Str → Str × Bool × Bool × Str
precision after [] = ([], false, after, [])
precision after (c ∷ s) =
    let (bad, after', s₁) = arg_number s in
    let (out, star, _, s₂) = star_or_num (ascii "%!(BADPREC)") s₁ in
    if same_byte c b'.'
    then (out, after || bad, not star && after', s₂)
    else ([], false, after, c ∷ s)

-- What follows a '%'.
directive : Str → Str × Str
directive s =
    let (bad₁, after₁, s₁) = arg_number (skip_flags s) in
    let (out₁, star, is_num, s₂) = star_or_num (ascii "%!(BADWIDTH)") s₁ in
    let (out₂, bad₂, after₂, s₃) = precision (after₁ && not star) s₂ in
    let (bad₃, _, s₄) = if after₂ then (false, true, s₃) else arg_number s₃ in
    let bad = bad₁ || (after₁ && is_num) || bad₂ || bad₃ in
    let (out₃, rest) = verb bad s₄ in (out₁ ++ (out₂ ++ out₃), rest)

-- The loop of doPrintf. A round takes at least one byte of the format.
format : ℕ → Str → Str
format fuel [] = []
format zero (c ∷ s) = []
format (suc fuel) (c ∷ s) =
    let (out, rest) = directive s in
    let directed = out ++ format fuel rest in
    let copied = c ∷ format fuel s in if same_byte c b'%' then directed else copied

unfoldable pub fprintf : Str → Str
unfolding ascii format directive precision verb rune star_or_num arg_number index_in find_close
    parse_num skip_flags is_flag valid_string ◌==◌
fprintf s = format (length s) s
