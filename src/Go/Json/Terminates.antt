-- ===== src/Go/Json/Terminates.antt =====
-- encoding/json: the reading of a text never runs out of fuel.
use epoxy.Base.{ℕ, zero, suc, ◌+◌, ◌*◌, ◌≤◌, ◌≢◌, Str, [], ◌∷◌, length, arith, same_byte}
use epoxy.Go.Json.Reader.{Literal}
use epoxy.Go.Json.Parse
use epoxy.Go.Json.Parse.{
  Value, Members, Parsed, parsed, failed, out_of_fuel, ◌>>=◌, of_option, skip_space, expect,
  expect_all, skip_digits, some_digits, integer, is_digit, fraction, signed_digits, exponent,
  parse_number, parse_scalar, parse_value, parse_object, parse_members, parse_array, parse_items,
  end_of_text, parse,
}
use epoxy.Go.Json.Ends.{
  Ends, found, rejected, Ends-bind, Ends-if, Ends-ne-out_of_fuel, Leaves, skip_space_left,
  read_string-Leaves, expect-Ends, parse_scalar-Leaves,
}

-- With fuel for three calls for each byte, and for those before the first byte, no part of the parser
-- runs out of it, and what is left is no longer than the text.
record IsEnough (fuel : ℕ) : Type 0 where
  value : (n : ℕ) (s : Str) → 3 * length s ≤ fuel → length s ≤ suc n → Leaves n (parse_value fuel s)
  object :
      (n : ℕ) (s : Str) → 3 * length s + 2 ≤ fuel → length s ≤ n → Leaves n (parse_object fuel s)
  members :
      (n : ℕ) (s : Str) → 3 * length s + 1 ≤ fuel → length s ≤ n → Leaves n (parse_members fuel s)
  more_members :
      (n : ℕ) (key : Literal) (v : Value) (s : Str)
      → 3 * length s + 1 ≤ fuel
      → length s ≤ n
      → Leaves n (Parse.more_members fuel key v s)
  array : (n : ℕ) (s : Str) → 3 * length s + 2 ≤ fuel → length s ≤ n → Leaves n (parse_array fuel s)
  items : (n : ℕ) (s : Str) → 3 * length s + 1 ≤ fuel → length s ≤ n → Leaves n (parse_items fuel s)
  more_items :
      (n : ℕ) (s : Str)
      → 3 * length s + 1 ≤ fuel
      → length s ≤ n
      → Leaves n (Parse.more_items fuel s)

module _ (fuel : ℕ) (enough : IsEnough fuel) where
  next_value :
      (n : ℕ) (s : Str)
      → 3 * length s ≤ suc fuel
      → length s ≤ suc n
      → Leaves n (parse_value (suc fuel) s)
  unfolding parse_value
  next_value n [] f h = rejected
  next_value n (c ∷ s) f h =
      let less = skip_space_left s in
      Ends-if (same_byte c b'{') _ _ (enough.object n (skip_space s) (omega arith) (omega arith)) (
        Ends-if (same_byte c b'[') _ _ (enough.array n (skip_space s) (omega arith) (omega arith))
          (parse_scalar-Leaves n c s (omega arith)))

  next_object :
      (n : ℕ) (s : Str)
      → 3 * length s + 2 ≤ suc fuel
      → length s ≤ n
      → Leaves n (parse_object (suc fuel) s)
  unfolding parse_object
  next_object n [] f h = rejected
  next_object n (c ∷ s) f h =
      Ends-if (same_byte c b'}') _ _ (found _ (omega arith))
        (Ends-bind _ _ _ (enough.members n (c ∷ s) (omega arith) h) λ (ms, rest) less. found _ less)

  next_members :
      (n : ℕ) (s : Str)
      → 3 * length s + 1 ≤ suc fuel
      → length s ≤ n
      → Leaves n (parse_members (suc fuel) s)
  unfolding parse_members
  next_members n [] f h = rejected
  next_members n (c ∷ s) f h = Ends-bind _ _ _ (expect-Ends b'"' (c ∷ s)) λ s₁ h₁.
      Ends-bind _ _ _ (read_string-Leaves (length s) s₁ (omega arith)) λ (key, s₂) h₂.
        Ends-bind _ _ _ (expect-Ends b':' (skip_space s₂)) λ s₃ h₃.
          let l₂ = skip_space_left s₂ in
          let l₃ = skip_space_left s₃ in
          Ends-bind _ _ _ (enough.value (length s) (skip_space s₃) (omega arith) (omega arith))
            λ (v, s₄) h₄.
              let l₄ = skip_space_left s₄ in
              enough.more_members n key v (skip_space s₄) (omega arith) (omega arith)

  next_more_members :
      (n : ℕ) (key : Literal) (v : Value) (s : Str)
      → 3 * length s + 1 ≤ suc fuel
      → length s ≤ n
      → Leaves n (Parse.more_members (suc fuel) key v s)
  unfolding parse_value
  next_more_members n key v [] f h = rejected
  next_more_members n key v (c ∷ s) f h =
      let less = skip_space_left s in
      Ends-if (same_byte c b'}') _ _ (found _ (omega arith)) (
        Ends-if (same_byte c b',') _ _
          (Ends-bind _ _ _ (enough.members n (skip_space s) (omega arith) (omega arith))
            λ (ms, rest) left. found _ left)
          rejected)

  next_array :
      (n : ℕ) (s : Str)
      → 3 * length s + 2 ≤ suc fuel
      → length s ≤ n
      → Leaves n (parse_array (suc fuel) s)
  unfolding parse_value
  next_array n [] f h = rejected
  next_array n (c ∷ s) f h =
      Ends-if (same_byte c b']') _ _ (found _ (omega arith))
        (enough.items n (c ∷ s) (omega arith) h)

  next_items :
      (n : ℕ) (s : Str)
      → 3 * length s + 1 ≤ suc fuel
      → length s ≤ n
      → Leaves n (parse_items (suc fuel) s)
  unfolding parse_value
  next_items n [] f h = rejected
  next_items n (c ∷ s) f h =
      Ends-bind _ _ _ (enough.value (length s) (c ∷ s) (omega arith) (omega arith))
        λ (v, rest) left.
          let less = skip_space_left rest in
          enough.more_items n (skip_space rest) (omega arith) (omega arith)

  next_more_items :
      (n : ℕ) (s : Str)
      → 3 * length s + 1 ≤ suc fuel
      → length s ≤ n
      → Leaves n (Parse.more_items (suc fuel) s)
  unfolding parse_value
  next_more_items n [] f h = rejected
  next_more_items n (c ∷ s) f h =
      let less = skip_space_left s in
      Ends-if (same_byte c b']') _ _ (found _ (omega arith)) (
        Ends-if (same_byte c b',') _ _ (enough.items n (skip_space s) (omega arith) (omega arith))
          rejected)

value_of_none : (n : ℕ) (s : Str) → 3 * length s ≤ 0 → Leaves n (parse_value 0 s)
unfolding parse_value
value_of_none n [] f = rejected
value_of_none n (c ∷ s) f = absurd (omega arith)

fuel-IsEnough : (fuel : ℕ) → IsEnough fuel
fuel-IsEnough zero = record {
  value = λ n s f h. value_of_none n s f;
  object = λ n s f h. absurd (omega arith);
  members = λ n s f h. absurd (omega arith);
  more_members = λ n key v s f h. absurd (omega arith);
  array = λ n s f h. absurd (omega arith);
  items = λ n s f h. absurd (omega arith);
  more_items = λ n s f h. absurd (omega arith);
}
fuel-IsEnough (suc fuel) =
    let enough = fuel-IsEnough fuel in
    record {
      value = next_value fuel enough;
      object = next_object fuel enough;
      members = next_members fuel enough;
      more_members = next_more_members fuel enough;
      array = next_array fuel enough;
      items = next_items fuel enough;
      more_items = next_more_items fuel enough;
    }

Ends-any : (v : Value) (s : Str) → Ends (λ w. Unit {0}) (end_of_text v s)
Ends-any v [] = found v tt
Ends-any v (c ∷ s) = rejected

-- Every text is either a JSON text or refused: the fuel is enough.
pub parse_ends : (s : Str) → parse s ≢ out_of_fuel
unfolding parse
parse_ends s =
    let less = skip_space_left s in
    Ends-ne-out_of_fuel _ (
      Ends-bind (λ v. Unit) _ _
        ((fuel-IsEnough (2 + 3 * length s)).value (length s) (skip_space s) (omega arith)
          (omega arith))
        λ (v, rest) left. Ends-any v (skip_space rest))
