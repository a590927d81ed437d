-- ===== src/Storage/Information.antt =====
-- storage/host.go: the information that a host collects from its client's form.
pub mod Laws
use epoxy.Base.{
  Bool, true, false, not, ◌&&◌, Str, ascii, ◌==◌, Option, none, some, List, [], ◌∷◌, if◌then◌else◌,
}
use epoxy.Base.Dict.{Dict, lookup, insert}
use epoxy.Go.Strings.{join, trim_space}
use epoxy.Go.Utf8.{valid_string}
use epoxy.Storage.Host.{Host}

unfoldable pub allowed_collected_information : Dict Bool
unfolding ascii
allowed_collected_information =
    (ascii "platform", true)
    ∷ (ascii "buildarch", true)
    ∷ (ascii "serial", true)
    ∷ (ascii "asset", true)
    ∷ (ascii "uuid", true)
    ∷ (ascii "manufacturer", true)
    ∷ (ascii "product", true)
    ∷ (ascii "chip", true)
    ∷ (ascii "mac", true)
    ∷ (ascii "ip", true)
    ∷ (ascii "version", true)
    ∷ (ascii "public_ssh_host_key", true)
    ∷ []

-- A missing key reads as false.
abbrev or_false : Option Bool → Bool
or_false none = false
or_false (some b) = b

unfoldable pub allowed : Str → Bool
unfolding allowed_collected_information
allowed key = or_false (lookup key allowed_collected_information)

unfoldable pub add_value : Str → List Str → Host → Host
unfolding allowed
add_value key values h =
    let value = trim_space (join values (32 ∷ [])) in
    if not (valid_string value)
    then h
    else if allowed key && not (value == [])
    then record h { collected_information = insert key value h.collected_information }
    else h

unfoldable pub add_information : Dict (List Str) → Host → Host
unfolding add_value
add_information [] h = h
add_information ((key, values) ∷ rest) h = add_information rest (add_value key values h)
