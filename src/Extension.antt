-- ===== src/Extension.antt =====
-- extension/request.go: requests to extension services, as JSON.
pub mod RoundTrip
pub mod Service
pub mod Answers
use epoxy.Base.{
  Str, ascii, ◌==◌, Bool, true, false, ◌&&◌, ◌||◌, Option, none, some, List, [], ◌∷◌, ◌++◌, Error,
  external, Outcome, ok, err, ℕ, ◌+◌, same_byte, between, if◌then◌else◌,
}
use epoxy.Base.Exec.{Exec, pure, stop, ◌>>=◌}
use epoxy.Storage.Host.{Time}
use epoxy.Go.Json.{quote, object}
use epoxy.Go.Json.Reader.{Literal}
use epoxy.Go.Json.Parse.{Value, Members, no_members, member, null, Parsed, parsed, parse}

pub record V1 : Type 0 where
  pub hostname : Str
  pub ipv4_address : Str
  pub ipv6_address : Str
  pub last_boot : Time
  pub raw_query : Str

-- V1 is a pointer.
pub record Request : Type 0 where
  pub v1 : Option V1

-- Package time: the text of a time in RFC 3339, which MarshalJSON puts between quotes, and none for a
-- year that has not four digits; and the time that UnmarshalJSON finds between quotes.
pub record Clock : Type 0 where
  pub rfc3339 : Time → Option Str
  pub parse_rfc3339 : Str → Outcome Error Time

-- Why a message is not decoded: its reading fails, it is no JSON, a value has the wrong type, or a
-- string is no time.
pub data DecodeError : Type 0 where
  unreadable : Error → DecodeError
  not_json : DecodeError
  mismatched : DecodeError
  no_time : Error → DecodeError

unfoldable pub v1_members : V1 → Str → List (Str × Str)
unfolding quote ascii
v1_members v time =
    (ascii "hostname", quote v.hostname)
    ∷ (ascii "ipv4_address", quote v.ipv4_address)
    ∷ (ascii "ipv6_address", quote v.ipv6_address)
    ∷ (ascii "last_boot", b'"' ∷ (time ++ b'"' ∷ []))
    ∷ (ascii "raw_query", quote v.raw_query)
    ∷ []

abbrev pub encode_v1 : V1 → Option Str → Str
encode_v1 v none = []
encode_v1 v (some time) = object 0 ((ascii "v1", object 1 (v1_members v time)) ∷ [])

-- Encode; an error of MarshalIndent leaves the empty string.
unfoldable pub encode : Clock → Request → Str
encode clock req = encode_or_empty req.v1
  where
    encode_or_empty : Option V1 → Str
    encode_or_empty none = object 0 []
    encode_or_empty (some v) = encode_v1 v (clock.rfc3339 v.last_boot)

-- Whether Unmarshal takes a key for the name of a field, which is in lower case: up to the case of
-- ASCII letters, and with U+017F for an "s".
abbrev same_letter : ℕ → ℕ → Bool
same_letter c d = same_byte c d || (between b'a' b'z' c && same_byte c (d + 32))

unfoldable pub folds : Str → Str → Bool
folds [] [] = true
folds [] (d ∷ key) = false
folds (c ∷ name) [] = false
folds (c ∷ name) (d ∷ []) = same_letter c d && folds name []
folds (c ∷ name) (d ∷ e ∷ key) =
    let long_s = same_byte c b's' && same_byte d 0xc5 && same_byte e 0xbf in
    (same_letter c d || long_s) && folds name (if same_letter c d then e ∷ key else key)

-- Unmarshal goes on behind a value of the wrong type, and returns the first such error at its end.
abbrev Saved : Type 0
Saved = Option DecodeError

abbrev mismatch : Saved → Saved
mismatch none = some mismatched
mismatch (some e) = some e

abbrev set_string : (Str → V1 → V1) → Value → Saved → Exec V1 DecodeError Saved
set_string set (Value.string l) saved v = (ok saved, set l.text v)
set_string set null saved v = (ok saved, v)
set_string set _ saved v = (ok (mismatch saved), v)

abbrev set_last_boot : Outcome Error Time → Saved → Exec V1 DecodeError Saved
set_last_boot (ok time) saved v = (ok saved, record v { last_boot = time })
set_last_boot (err e) saved v = (err (no_time e), v)

module _ (clock : Clock) where
  -- time.Time has its own UnmarshalJSON, whose error ends the decoding.
  unfoldable pub decode_time : Value → Saved → Exec V1 DecodeError Saved
  decode_time (Value.string l) saved = set_last_boot (clock.parse_rfc3339 l.raw) saved
  decode_time null saved = pure saved
  decode_time _ saved =
      stop (no_time (external (ascii "Time.UnmarshalJSON: input is not a JSON string")))

  unfoldable pub decode_field : Str → Value → Saved → Exec V1 DecodeError Saved
  unfolding decode_time
  decode_field key value saved =
      if folds (ascii "hostname") key
      then set_string (λ text v. record v { hostname = text }) value saved
      else if folds (ascii "ipv4_address") key
      then set_string (λ text v. record v { ipv4_address = text }) value saved
      else if folds (ascii "ipv6_address") key
      then set_string (λ text v. record v { ipv6_address = text }) value saved
      else if folds (ascii "last_boot") key
      then decode_time value saved
      else if folds (ascii "raw_query") key
      then set_string (λ text v. record v { raw_query = text }) value saved
      else pure saved

  unfoldable pub decode_fields : Members → Saved → Exec V1 DecodeError Saved
  unfolding decode_field
  decode_fields no_members saved = pure saved
  decode_fields (member key value rest) saved = do
    saved' ← decode_field key.text value saved
    decode_fields rest saved'

  abbrev zero_v1 : V1
  zero_v1 = record {
    hostname = [];
    ipv4_address = [];
    ipv6_address = [];
    last_boot = 0;
    raw_query = [];
  }

  abbrev or_zero : Option V1 → V1
  or_zero none = zero_v1
  or_zero (some v) = v

  -- The pointer V1: null resets it, and any other value allocates it.
  unfoldable pub decode_v1 : Value → Saved → Exec Request DecodeError Saved
  unfolding decode_fields
  decode_v1 null saved req = (ok saved, record req { v1 = none })
  decode_v1 (Value.object fields) saved req =
      let (r, v) = decode_fields fields saved (or_zero req.v1) in (r, record req { v1 = some v })
  decode_v1 _ saved req = (ok (mismatch saved), record req { v1 = some (or_zero req.v1) })

  unfoldable pub decode_members : Members → Saved → Exec Request DecodeError Saved
  unfolding decode_v1
  decode_members no_members saved = pure saved
  decode_members (member key value rest) saved = do
    saved' ← (if folds (ascii "v1") key.text then decode_v1 value saved else pure saved)
    decode_members rest saved'

  abbrev finish : Saved → Exec Request DecodeError (Unit {0})
  finish none = pure tt
  finish (some e) = stop e

  unfoldable pub decode_value : Value → Exec Request DecodeError (Unit {0})
  unfolding decode_members
  decode_value (Value.object members) = do saved ← decode_members members none; finish saved
  decode_value null = pure tt
  decode_value _ = stop mismatched

  abbrev unmarshal : Parsed Value → Exec Request DecodeError (Unit {0})
  unmarshal (parsed value) = decode_value value
  unmarshal _ = stop not_json

  -- Decode, of a message that ioutil.ReadAll has read or not.
  unfoldable pub decode : Outcome Error Str → Exec Request DecodeError (Unit {0})
  decode (err e) = stop (unreadable e)
  decode (ok raw) = unmarshal (parse raw)
