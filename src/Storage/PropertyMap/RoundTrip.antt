-- ===== src/Storage/PropertyMap/RoundTrip.antt =====
-- datastorex/propertymap.go: Save followed by Load.
use epoxy.Base.{◌≡◌, refl, Str, eq_iff, Option, none, some, [], ◌∷◌, arith}
use epoxy.Base.Dict.{Dict, lookup, insert, lookup-insert, lookup-nil, HasDistinctKeys}
use epoxy.Storage.PropertyMap.{load_from, load, save}

-- The later entry of a key wins.
abbrev first_of : Option Str → Option Str → Option Str
first_of none old = old
first_of (some v) old = some v

load_from-save :
    (mp start : Dict Str) (k : Str)
    → HasDistinctKeys mp
    → lookup k (load_from (save mp) start) ≡ first_of (lookup k mp) (lookup k start)
unfolding load_from save lookup
load_from-save [] start k d = refl
load_from-save ((j, v) ∷ mp) start k (fresh, d) =
    ground (arith, load_from-save mp (insert j v start) k d, lookup-insert j k v start, eq_iff j k)

-- Load after Save has the same value, or the same absence, at every key of a map, whose keys are
-- distinct.
pub load-save :
    (mp : Dict Str) (k : Str) → HasDistinctKeys mp → lookup k (load (save mp)) ≡ lookup k mp
unfolding load
load-save mp k d = ground (arith, load_from-save mp [] k d, lookup-nil {V = Str} k)
