-- ===== src/Storage/PropertyMap.antt =====
-- datastorex/propertymap.go: string maps as lists of Datastore properties.
pub mod RoundTrip
use epoxy.Base.{Bool, true, Str, List, [], ◌∷◌}
use epoxy.Base.Dict.{Dict, insert}

-- A property's value is a string or of another type.
pub data PropertyValue : Type 0 where
  string : Str → PropertyValue
  other : PropertyValue

pub record Property : Type 0 where
  pub name : Str
  pub value : PropertyValue
  pub no_index : Bool

abbrev load_value : Str → PropertyValue → Dict Str → Dict Str
load_value name (string s) mp = insert name s mp
load_value name other mp = mp

load_from : List Property → Dict Str → Dict Str
load_from [] mp = mp
load_from (p ∷ ps) mp = load_from ps (load_value p.name p.value mp)

-- Load: the current contents are dropped.
unfoldable pub load : List Property → Dict Str
unfolding load_from
load ps = load_from ps []

-- Save
unfoldable pub save : Dict Str → List Property
save [] = []
save ((k, v) ∷ mp) = record { name = k; value = string v; no_index = true } ∷ save mp
