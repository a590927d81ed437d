-- ===== src/Go/Fmt/Plain.antt =====
-- fmt.Fprintf on formats without a verb.
use epoxy.Base.{◌≢◌, ◌≡◌, refl, Str, [], ◌∷◌, All, length, arith, ascii}
use epoxy.Go.Fmt.{format, fprintf}

abbrev pub HasNoPercent : Str → Type 0
HasNoPercent = All (λ c. c ≢ b'%')

format_plain : (s : Str) → HasNoPercent s → format (length s) s ≡ s
unfolding format
format_plain [] h = refl
format_plain (c ∷ s) h = ground (arith, h.0, format_plain s h.1)

pub fprintf_plain : (s : Str) → HasNoPercent s → fprintf s ≡ s
fprintf_plain s h = unfold fprintf in format_plain s h

-- A percent-encoded space of a URL is taken for a verb.
fprintf_escape : fprintf (ascii "a%20b") ≡ ascii "a%!b(MISSING)"
unfolding fprintf
fprintf_escape = refl
