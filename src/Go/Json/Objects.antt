-- ===== src/Go/Json/Objects.antt =====
-- Reading back the objects that encoding/json has written.
use mathlib.Core.List.{append_assoc}
use epoxy.Base.{
  ℕ, zero, suc, ◌+◌, ◌*◌, ◌≤◌, ◌≡◌, refl, ap, ◌∙◌, Str, true, List, [], ◌∷◌, ◌++◌, arith, All,
  length,
}
use epoxy.Go.Utf8.{valid_string}
use epoxy.Go.Json.{contents, quote, indent, members, object}
use epoxy.Go.Json.Parse.{
  Value, Members, no_members, parsed, ◌>>=◌, skip_space, parse_value, parse_object, parse_members,
  more_members,
}
use epoxy.Go.Json.Quoted.{literal, read_string-contents}
use epoxy.Go.Json.Reads.{Reads, quote-Reads}

-- A member of an object, with the value that its text is read as.
pub record Item : Type 0 where
  pub key : Str
  pub text : Str
  pub value : Value

pub record IsReadable (bound : ℕ) (item : Item) : Type 0 where
  pub valid : valid_string item.key ≡ true
  pub reads : Reads bound item.text item.value

abbrev pub texts : List Item → List (Str × Str)
texts [] = []
texts (item ∷ items) = (item.key, item.text) ∷ texts items

abbrev pub found : List Item → Members
found [] = no_members
found (item ∷ items) = Members.member (literal item.key) item.value (found items)

skip_space-indent : (depth : ℕ) (s : Str) → skip_space (indent depth ++ s) ≡ skip_space s
unfolding skip_space
skip_space-indent zero s = refl
skip_space-indent (suc depth) s = skip_space-indent depth s

member_read :
    (bound fuel : ℕ) (item : Item) (rest : Str)
    → IsReadable bound item
    → bound ≤ fuel
    → parse_members (suc fuel) (quote item.key ++ (b':' ∷ 32 ∷ (item.text ++ rest)))
      ≡ more_members fuel (literal item.key) item.value (skip_space rest)
unfolding parse_members quote skip_space
member_read bound fuel item rest r h =
    rw (append_assoc (contents 0 true item.key) (b'"' ∷ []) (b':' ∷ 32 ∷ (item.text ++ rest))) (
      rw (read_string-contents item.key (b':' ∷ 32 ∷ (item.text ++ rest)) r.valid)
        (rw (r.reads.starts rest) (rw (r.reads.at fuel rest h) refl)))

last_read :
    (fuel depth : ℕ) (item : Item) (rest : Str)
    → more_members
        (suc fuel)
        (literal item.key)
        item.value
        (skip_space (b'\n' ∷ (indent depth ++ b'}' ∷ rest)))
      ≡ parsed (found (item ∷ []), rest)
unfolding more_members skip_space
last_read fuel depth item rest = rw (skip_space-indent depth (b'}' ∷ rest)) refl

members_start :
    (depth : ℕ) (item : Item) (items : List Item) (rest : Str)
    → skip_space (members depth (item.key, item.text) (texts items) ++ rest)
      ≡ members depth (item.key, item.text) (texts items) ++ rest
unfolding skip_space members quote
members_start depth item [] rest = refl
members_start depth item (next ∷ items) rest = refl

next_read :
    (fuel depth : ℕ) (item next : Item) (items : List Item) (s rest : Str)
    → parse_members fuel (members depth (next.key, next.text) (texts items) ++ s)
      ≡ parsed (found (next ∷ items), rest)
    → more_members (suc fuel) (literal item.key) item.value (
        skip_space (
          b','
          ∷ b'\n'
          ∷ (indent depth ++ (members depth (next.key, next.text) (texts items) ++ s))))
      ≡ parsed (found (item ∷ next ∷ items), rest)
unfolding more_members skip_space
next_read fuel depth item next items s rest e =
    rw (skip_space-indent depth (members depth (next.key, next.text) (texts items) ++ s))
      (rw (members_start depth next items s) (rw e refl))

-- What ends an object whose members are written.
abbrev ending : ℕ → Str → Str
ending depth rest = b'\n' ∷ (indent depth ++ b'}' ∷ rest)

append_member :
    (depth : ℕ) (item : Item) (s rest : Str)
    → (quote item.key ++ (b':' ∷ 32 ∷ (item.text ++ (b',' ∷ b'\n' ∷ (indent depth ++ s))))) ++ rest
      ≡ quote item.key
        ++ (b':' ∷ 32 ∷ (item.text ++ (b',' ∷ b'\n' ∷ (indent depth ++ (s ++ rest)))))
append_member depth item s rest = simp append_assoc

members_read :
    (bound depth outer fuel : ℕ) (item : Item) (items : List Item) (rest : Str)
    → All (IsReadable bound) (item ∷ items)
    → bound + 2 * length items + 2 ≤ fuel
    → parse_members fuel (members depth (item.key, item.text) (texts items) ++ ending outer rest)
      ≡ parsed (found (item ∷ items), rest)
unfolding members
members_read bound depth outer zero item items rest all h = absurd (omega arith)
members_read bound depth outer (suc zero) item items rest all h = absurd (omega arith)
members_read bound depth outer (suc (suc fuel)) item [] rest all h =
    ap (parse_members (suc (suc fuel)))
      (append_assoc (quote item.key) (b':' ∷ 32 ∷ item.text) (ending outer rest))
    ∙ member_read bound (suc fuel) item (ending outer rest) all.0 (omega arith)
    ∙ last_read fuel outer item rest
members_read bound depth outer (suc (suc fuel)) item (next ∷ items) rest all h =
    ap (parse_members (suc (suc fuel))) (
      append_member depth item (members depth (next.key, next.text) (texts items))
        (ending outer rest))
    ∙ member_read bound (suc fuel) item _ all.0 (omega arith)
    ∙ next_read fuel depth item next items (ending outer rest) rest
        (members_read bound depth outer fuel next items rest all.1 (omega arith))

object_members :
    (depth fuel : ℕ) (item : Item) (items : List Item) (s : Str)
    → let text = members depth (item.key, item.text) (texts items) ++ s in
      parse_object (suc fuel) text
      ≡ (parse_members fuel text >>= λ (ms, rest). parsed (Value.object ms, rest))
unfolding parse_object members quote
object_members depth fuel item [] s = refl
object_members depth fuel item (next ∷ items) s = refl

append_object :
    (depth outer : ℕ) (s rest : Str)
    → (indent depth ++ (s ++ ending outer [])) ++ rest ≡ indent depth ++ (s ++ ending outer rest)
append_object depth outer s rest = simp append_assoc

opened_read :
    (bound depth outer fuel : ℕ) (item : Item) (items : List Item) (rest : Str)
    → All (IsReadable bound) (item ∷ items)
    → bound + 2 * length items + 2 ≤ fuel
    → parse_object (suc fuel) (
        skip_space (
          indent depth ++ (members depth (item.key, item.text) (texts items) ++ ending outer rest)))
      ≡ parsed (Value.object (found (item ∷ items)), rest)
opened_read bound depth outer fuel item items rest all h =
    let text = members depth (item.key, item.text) (texts items) ++ ending outer rest in
    rw (skip_space-indent depth text) (
      rw (members_start depth item items (ending outer rest)) (
        object_members depth fuel item items (ending outer rest)
        ∙ rw (members_read bound depth outer fuel item items rest all h) refl))

object_read :
    (bound depth fuel : ℕ) (item : Item) (items : List Item) (rest : Str)
    → All (IsReadable bound) (item ∷ items)
    → bound + 2 * length items + 4 ≤ fuel
    → parse_value fuel (object depth (texts (item ∷ items)) ++ rest)
      ≡ parsed (Value.object (found (item ∷ items)), rest)
unfolding parse_value object skip_space
object_read bound depth zero item items rest all h = absurd (omega arith)
object_read bound depth (suc zero) item items rest all h = absurd (omega arith)
object_read bound depth (suc (suc fuel)) item items rest all h =
    ap (λ s. parse_object (suc fuel) (skip_space s))
      (append_object (suc depth) depth (members (suc depth) (item.key, item.text) (texts items))
        rest)
    ∙ opened_read bound (suc depth) depth fuel item items rest all (omega arith)

-- An object of members that are read back is read back.
pub object-Reads :
    (bound depth : ℕ) (item : Item) (items : List Item)
    → All (IsReadable bound) (item ∷ items)
    → Reads
        (bound + 2 * length items + 4)
        (object depth (texts (item ∷ items)))
        (Value.object (found (item ∷ items)))
object-Reads bound depth item items all = record {
  at = λ fuel rest h. object_read bound depth fuel item items rest all h;
  starts = λ rest. unfold object skip_space in refl;
}

-- A member whose value is a string.
abbrev pub string_item : Str → Str → Item
string_item key s = record { key = key; text = quote s; value = Value.string (literal s) }

pub string_item-IsReadable :
    (key s : Str)
    → valid_string key ≡ true
    → valid_string s ≡ true
    → IsReadable 1 (string_item key s)
string_item-IsReadable key s h valid = record { valid = h; reads = quote-Reads s valid }
