-- ===== src/Go/Json/Reads.antt =====
-- Texts of a value that are read back, and what is written for a string as one.
use mathlib.Core.List.{append_assoc, append-nil}
use epoxy.Base.{ℕ, zero, suc, ◌+◌, ◌*◌, ◌≤◌, ◌≡◌, refl, Str, true, [], ◌∷◌, ◌++◌, arith, length}
use epoxy.Go.Utf8.{valid_string}
use epoxy.Go.Json.{contents, quote}
use epoxy.Go.Json.Parse.{Value, parse, parsed, skip_space, parse_scalar, parse_value}
use epoxy.Go.Json.Quoted.{literal, read_string-contents}

-- A text that is read as a value, with fuel of at least `bound`, whatever follows.
pub record Reads (bound : ℕ) (text : Str) (v : Value) : Type 0 where
  pub at :
      (fuel : ℕ) (rest : Str) → bound ≤ fuel → parse_value fuel (text ++ rest) ≡ parsed (v, rest)
  pub starts : (rest : Str) → skip_space (text ++ rest) ≡ text ++ rest

scalar_read :
    (s rest : Str)
    → valid_string s ≡ true
    → parse_scalar b'"' (contents 0 true s ++ b'"' ∷ rest) ≡ parsed (Value.string (literal s), rest)
unfolding parse_scalar
scalar_read s rest valid = rw (read_string-contents s rest valid) refl

value_read :
    (s : Str) (fuel : ℕ) (rest : Str)
    → valid_string s ≡ true
    → 1 ≤ fuel
    → parse_value fuel (quote s ++ rest) ≡ parsed (Value.string (literal s), rest)
unfolding parse_value quote
value_read s zero rest valid h = absurd (omega arith)
value_read s (suc fuel) rest valid h = rw append_assoc (scalar_read s rest valid)

pub quote-Reads : (s : Str) → valid_string s ≡ true → Reads 1 (quote s) (Value.string (literal s))
quote-Reads s valid = record {
  at = λ fuel rest h. value_read s fuel rest valid h;
  starts = λ rest. unfold quote skip_space in refl;
}

pub Reads-more :
    (bound more : ℕ) (text : Str) (v : Value)
    → bound ≤ more
    → Reads bound text v
    → Reads more text v
Reads-more bound more text v h r = record {
  at = λ fuel rest enough. r.at fuel rest (omega arith);
  starts = r.starts;
}

-- A text that is read as a value, with fuel of at most its length, is a JSON text.
pub parse-Reads :
    (bound : ℕ) (text : Str) (v : Value)
    → Reads bound text v
    → bound ≤ length text
    → parse text ≡ parsed v
unfolding parse
parse-Reads bound text v r h =
    let starts = r.starts [] in
    let started = rw append-nil at starts in
    let read = r.at (2 + 3 * length text) [] (omega arith) in
    let whole = rw append-nil at read in rw started (rw whole refl)
