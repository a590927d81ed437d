-- ===== src/Extension/RoundTrip.antt =====
-- extension/request.go: a service decodes what the server has encoded.
use epoxy.Base.{
  ℕ, ◌≡◌, refl, Str, ascii, Bool, true, ◌||◌, some, List, [], ◌∷◌, ok, arith, All, leb, same_byte,
  between,
}
use epoxy.Base.Exec.{◌>>=◌}
use epoxy.Storage.Host.{Time}
use epoxy.Go.Utf8.{rune_size, valid_behind, valid_string}
use epoxy.Go.Json.{contents, rune_text, escaped, quote, members, object}
use epoxy.Go.Json.Parse.{Value, parsed, parse}
use epoxy.Go.Json.Quoted.{contents-any}
use epoxy.Go.Utf8.Runes.{rune_size-ascii}
use epoxy.Go.Json.Reads.{parse-Reads}
use epoxy.Go.Json.Objects.{
  Item, string_item, string_item-IsReadable, IsReadable, texts, found, object-Reads,
}
use epoxy.Extension.{
  V1, Request, Clock, v1_members, encode_v1, encode, decode, decode_value, decode_members,
  decode_v1, decode_fields, decode_field, decode_time, folds,
}

-- The characters of a time in RFC 3339.
abbrev pub is_time_character : ℕ → Bool
is_time_character c =
    between b'0' b'9' c
    || same_byte c b'-'
    || same_byte c b':'
    || same_byte c b'.'
    || same_byte c b'T'
    || same_byte c b'Z'
    || same_byte c b'+'

-- The text of a time is read back as that time.
pub record TellsTime (clock : Clock) : Type 0 where
  pub reads :
      (t : Time) (text : Str) → clock.rfc3339 t ≡ some text → clock.parse_rfc3339 text ≡ ok t
  pub characters :
      (t : Time) (text : Str)
      → clock.rfc3339 t ≡ some text
      → All (λ c. is_time_character c ≡ true) text

-- The strings are UTF-8.
pub record IsUtf8 (v : V1) : Type 0 where
  pub hostname : valid_string v.hostname ≡ true
  pub ipv4_address : valid_string v.ipv4_address ≡ true
  pub ipv6_address : valid_string v.ipv6_address ≡ true
  pub raw_query : valid_string v.raw_query ≡ true

time_low : (c : ℕ) → is_time_character c ≡ true → leb c 0x7f ≡ true
time_low c h = ground arith

time_size : (c : ℕ) (s : Str) → is_time_character c ≡ true → rune_size (c ∷ s) ≡ 1
time_size c s h = rune_size-ascii c s (time_low c h)

time_valid : (s : Str) → All (λ c. is_time_character c ≡ true) s → valid_behind 0 s ≡ true
unfolding valid_behind
time_valid [] h = refl
time_valid (c ∷ s) h = rw (time_size c s h.0) (time_valid s h.1)

time_text : (c : ℕ) (s : Str) → is_time_character c ≡ true → rune_text c s ≡ c ∷ []
unfolding rune_text escaped
time_text c s h = ground arith

contents_time : (s : Str) → All (λ c. is_time_character c ≡ true) s → contents 0 true s ≡ s
unfolding contents
contents_time [] h = refl
contents_time (c ∷ s) h =
    simp (time_text c s h.0, time_size c s h.0, contents-any, contents_time s h.1)

-- The members of the object for a V1, with their values.
abbrev rest_items : V1 → Str → List Item
rest_items v time =
    string_item (ascii "ipv4_address") v.ipv4_address
    ∷ string_item (ascii "ipv6_address") v.ipv6_address
    ∷ string_item (ascii "last_boot") time
    ∷ string_item (ascii "raw_query") v.raw_query
    ∷ []

abbrev v1_items : V1 → Str → List Item
v1_items v time = string_item (ascii "hostname") v.hostname ∷ rest_items v time

abbrev request_item : V1 → Str → Item
request_item v time = record {
  key = ascii "v1";
  text = object 1 (texts (v1_items v time));
  value = Value.object (found (v1_items v time));
}

module _ (v : V1) (time : Str) (utf8 : IsUtf8 v)
    (plain : All (λ c. is_time_character c ≡ true) time) where
  fields_read : All (IsReadable 1) (v1_items v time)
  unfolding valid_string ascii
  fields_read = (
    string_item-IsReadable _ _ refl utf8.hostname,
    (
      string_item-IsReadable _ _ refl utf8.ipv4_address,
      (
        string_item-IsReadable _ _ refl utf8.ipv6_address,
        (
          string_item-IsReadable _ _ refl (time_valid time plain),
          (string_item-IsReadable _ _ refl utf8.raw_query, tt),
        ),
      ),
    ),
  )

  request_read : IsReadable 13 (request_item v time)
  unfolding valid_string ascii
  request_read = record {
    valid = refl;
    reads =
        object-Reads 1 1 (string_item (ascii "hostname") v.hostname) (rest_items v time)
          fields_read;
  }

  text_parsed :
      parse (object 0 ((ascii "v1", object 1 (texts (v1_items v time))) ∷ []))
      ≡ parsed (Value.object (found (request_item v time ∷ [])))
  unfolding object members quote contents rune_text escaped ascii
  text_parsed =
      parse-Reads 17 _ _ (object-Reads 13 0 (request_item v time) [] (request_read, tt))
        (omega arith)

text_same :
    (v : V1) (time : Str)
    → contents 0 true time ≡ time
    → encode_v1 v (some time) ≡ object 0 ((ascii "v1", object 1 (texts (v1_items v time))) ∷ [])
unfolding v1_members quote
text_same v time same = rw same refl

-- The text of a V1, whatever the decoding starts from.
module _ (clock : Clock) (v : V1) (time : Str) (req : Request) where
  decoded :
      clock.parse_rfc3339 time ≡ ok v.last_boot
      → contents 0 true time ≡ time
      → decode_value clock (Value.object (found (request_item v time ∷ []))) req
        ≡ (ok tt, record { v1 = some v })
  unfolding decode_value decode_members decode_v1 decode_fields decode_field decode_time folds ascii
      ◌>>=◌
  decoded e same = rw (same, e) refl

-- Decode reads back what Encode has written, whatever the decoded request held before: the text of a
-- request whose four strings are UTF-8 and whose time has a text in RFC 3339, from which package
-- time reads back that time.
pub decode-encode :
    (clock : Clock) (v : V1) (time : Str) (req : Request)
    → TellsTime clock
    → clock.rfc3339 v.last_boot ≡ some time
    → IsUtf8 v
    → decode clock (ok (encode clock (record { v1 = some v }))) req
      ≡ (ok tt, record { v1 = some v })
unfolding decode encode
decode-encode clock v time req tells e utf8 =
    let plain = tells.characters v.last_boot time e in
    rw e (
      rw (text_same v time (contents_time time plain)) (
        rw (text_parsed v time utf8 plain)
          (decoded clock v time req (tells.reads v.last_boot time e) (contents_time time plain))))
