-- ===== src/Go/Sort.antt =====
-- The order of strings, byte by byte, and the entries of a map in the order of their keys: the
-- order in which templates and fmt print maps.
use epoxy.Base.{Str, Bool, true, false, ◌&&◌, ◌||◌, not, [], ◌∷◌, leb, same_byte, if◌then◌else◌}
use epoxy.Base.Dict.{Dict}

str_leb : Str → Str → Bool
str_leb [] t = true
str_leb (a ∷ s) [] = false
str_leb (a ∷ s) (b ∷ t) = not (leb b a) || (same_byte a b && str_leb s t)

module _ {ℓ} {V : Type ℓ} where
  insert_sorted : Str → V → Dict V → Dict V
  insert_sorted k v [] = (k, v) ∷ []
  insert_sorted k v ((j, w) ∷ m) =
      let later = insert_sorted k v m in if str_leb k j then (k, v) ∷ (j, w) ∷ m else (j, w) ∷ later

  unfoldable pub sort_keys : Dict V → Dict V
  unfolding insert_sorted str_leb
  sort_keys [] = []
  sort_keys ((k, v) ∷ m) = insert_sorted k v (sort_keys m)
