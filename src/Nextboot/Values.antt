-- ===== src/Nextboot/Values.antt =====
-- nextboot/v1.go: the conversions between JSON values and strings, by fmt.Sprint.
use epoxy.Base.{Str, ascii, List, [], ◌∷◌, ◌++◌}
use epoxy.Base.Dict.{Dict}
use epoxy.Go.Strings.{join}
use epoxy.Go.Sort.{sort_keys}
use epoxy.Nextboot.Config.{
  Value, null, bool_true, bool_false, num, str, arr, obj, Items, nil, cons, Fields, end, field,
}

-- The entries of a printed map, "key:value" in the order of the keys.
abbrev entries : Dict Str → List Str
entries [] = []
entries ((k, v) ∷ m) = (k ++ b':' ∷ v) ∷ entries m

-- fmt.Sprint(v)
unfoldable mutual
  unfolding ascii sort_keys join

  pub sprint : Value → Str
  sprint null = ascii "<nil>"
  sprint bool_true = ascii "true"
  sprint bool_false = ascii "false"
  sprint (num text) = text
  sprint (str s) = s
  sprint (arr xs) = b'[' ∷ (join (sprint_items xs) (32 ∷ []) ++ b']' ∷ [])
  sprint (obj fs) =
      ascii "map[" ++ (join (entries (sort_keys (sprint_fields fs))) (32 ∷ []) ++ b']' ∷ [])

  pub sprint_items : Items → List Str
  sprint_items nil = []
  sprint_items (cons x xs) = sprint x ∷ sprint_items xs

  pub sprint_fields : Fields → Dict Str
  sprint_fields end = []
  sprint_fields (field k v fs) = (k, sprint v) ∷ sprint_fields fs

unfoldable pub interface_to_string_array : Value → List Str
unfolding sprint sprint_items sprint_fields
interface_to_string_array (arr xs) = sprint_items xs
interface_to_string_array null = []
interface_to_string_array bool_true = []
interface_to_string_array bool_false = []
interface_to_string_array (num _) = []
interface_to_string_array (str _) = []
interface_to_string_array (obj _) = []

unfoldable pub string_to_interface_array : List Str → Items
string_to_interface_array [] = nil
string_to_interface_array (s ∷ a) = cons (str s) (string_to_interface_array a)
