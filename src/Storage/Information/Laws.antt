-- ===== src/Storage/Information/Laws.antt =====
-- What AddInformation leaves in a host's record.
use epoxy.Base.{
  ◌≡◌, refl, not, ◌&&◌, Str, ◌==◌, eq_iff, Option, none, some, List, [], ◌∷◌, arith, if◌then◌else◌,
}
use epoxy.Base.Dict.{Dict, lookup, lookup-insert, lookup-cons, HasDistinctKeys}
use epoxy.Go.Strings.{join, trim_space}
use epoxy.Go.Utf8.{valid_string}
use epoxy.Storage.Host.{Host}
use epoxy.Storage.Information.{allowed, add_value, add_information}

-- The value that is kept of a submitted field: the joined and trimmed one, if the key is allowed
-- and the value is valid UTF-8 and not empty.
pub accepted : Str → Option (List Str) → Option Str
accepted key none = none
accepted key (some values) =
    let value = trim_space (join values (32 ∷ [])) in
    if valid_string value && allowed key && not (value == []) then some value else none

abbrev pub or_else : Option Str → Option Str → Option Str
or_else none old = old
or_else (some new) old = some new

lookup-add_value :
    (key : Str) (values : List Str) (h : Host) (j : Str)
    → lookup j (add_value key values h).collected_information ≡ (
        if key == j
        then or_else (accepted key (some values)) (lookup j h.collected_information)
        else lookup j h.collected_information)
unfolding add_value accepted
lookup-add_value key values h j =
    let value = trim_space (join values (32 ∷ [])) in
    ground (arith, lookup-insert key j value h.collected_information)

accepted-none : (j : Str) → accepted j none ≡ none
unfolding accepted
accepted-none j = refl

-- The map after AddInformation, key by key, in whatever order the fields of a form with distinct
-- keys are met: the accepted value of the field, or else what was there.
pub lookup-add_information :
    (values : Dict (List Str)) (h : Host) (j : Str)
    → HasDistinctKeys values
    → lookup j (add_information values h).collected_information
      ≡ or_else (accepted j (lookup j values)) (lookup j h.collected_information)
unfolding add_information
lookup-add_information [] h j d = unfold lookup accepted in refl
lookup-add_information ((key, vs) ∷ rest) h j (fresh, d) = ground (
  arith,
  lookup-add_information rest (add_value key vs h) j d,
  lookup-add_value key vs h j,
  accepted-none j,
  lookup-cons key j vs rest,
  eq_iff key j,
)

add_value_frame :
    (key : Str) (vs : List Str) (h : Host)
    → add_value key vs h
      ≡ record h { collected_information = (add_value key vs h).collected_information }
unfolding add_value
add_value_frame key vs h = ground arith

-- AddInformation changes nothing of a record but the collected information.
pub add_information_frame :
    (values : Dict (List Str)) (h : Host)
    → add_information values h
      ≡ record h { collected_information = (add_information values h).collected_information }
unfolding add_information
add_information_frame [] h = refl
add_information_frame ((key, vs) ∷ rest) h =
    cc (add_information_frame rest (add_value key vs h), add_value_frame key vs h)
