-- ===== src/Tests/Extended.antt =====
-- An extension request on its way from the server of Tests/Backend to a service.
use epoxy.Base.{
  ascii, ◌==◌, eq_iff, ◌≡◌, refl, ◌++◌, Str, Bool, true, false, ◌&&◌, some, ok, err, [], ◌∷◌, arith,
  All,
}
use epoxy.Base.Dict.{lookup, insert}
use epoxy.Base.Exec.{◌>>=◌}
use epoxy.Go.Utf8.{valid_string}
use epoxy.Storage.Host.{Time}
use epoxy.Extension.{V1, mismatched, encode, decode, decode_value, folds}
use epoxy.Extension.RoundTrip.{TellsTime, IsUtf8, is_time_character, decode-encode}
use epoxy.Extension.Service.{Process, empty_request, operation_handler}
use epoxy.Extension.Answers.{IsReadableProcess, Says, operation_handler-Says}
use epoxy.Handler.Server.{Url, Request, proxied, hostname, session_id}
use epoxy.Handler.Access.{forwarded_ips, request_is_from_host}
use epoxy.Handler.Proxy.{operation, webreq_v1, handle_extension}
use epoxy.Handler.Served.{served, handle_extension-operation_handler}
use epoxy.Tests.Backend.{extension_req, epoch, clock, host, server, context}

clock_reads :
    (t : Time) (text : Str) → clock.rfc3339 t ≡ some text → clock.parse_rfc3339 text ≡ ok t
clock_reads t text e = ground (arith, eq_iff text epoch)

abbrev all_time : Str → Bool
all_time [] = true
all_time (c ∷ s) = is_time_character c && all_time s

All-all_time : (s : Str) → all_time s ≡ true → All (λ c. is_time_character c ≡ true) s
All-all_time [] e = tt
All-all_time (c ∷ s) e =
    let (first, rest) : (is_time_character c ≡ true) × (all_time s ≡ true) = both _ _ e in
    (first, All-all_time s rest)
  where
    both : (a b : Bool) → (a && b) ≡ true → (a ≡ true) × (b ≡ true)
    both true true e = (refl, refl)
    both true false e = cc
    both false b e = cc

clock_characters :
    (t : Time) (text : Str)
    → clock.rfc3339 t ≡ some text
    → All (λ c. is_time_character c ≡ true) text
unfolding ascii
clock_characters t text e =
    let same : text ≡ epoch = ground arith in rw same (All-all_time epoch refl)

clock-TellsTime : TellsTime clock
clock-TellsTime = record { reads = clock_reads; characters = clock_characters }

abbrev extension_target : Url
extension_target = record { scheme = []; host = ascii "ext1"; path = []; raw_query = [] }

-- A process that keeps what it prints.
abbrev process : Process Str
process = record {
  println = λ line printed. printed ++ line;
  now = λ printed. (ascii "noon", printed);
  error_text = λ e. ascii "bad";
}

process-IsReadable : IsReadableProcess process
unfolding valid_string ascii
process-IsReadable = record { now = λ w. refl; error_text = λ e. refl }

abbrev sent_v1 : V1
sent_v1 = webreq_v1 extension_req host

sent_v1-IsUtf8 : IsUtf8 sent_v1
unfolding valid_string ascii webreq_v1
sent_v1-IsUtf8 = record {
  hostname = refl;
  ipv4_address = refl;
  ipv6_address = refl;
  raw_query = refl;
}

decode-encode_example :
    decode clock (ok (encode clock (record { v1 = some sent_v1 }))) empty_request
    ≡ (ok tt, record { v1 = some sent_v1 })
unfolding webreq_v1
decode-encode_example =
    decode-encode clock sent_v1 epoch empty_request clock-TellsTime refl sent_v1-IsUtf8

handle_extension-operation_handler_example :
    (sent : Request) × ((handle_extension context extension_req server).0 ≡ ok (proxied sent))
    × (operation_handler clock process (ok sent.body) [] ≡ served process sent.body [])
unfolding request_is_from_host forwarded_ips hostname session_id operation insert lookup ascii ◌==◌
    epoxy.Go.Strings.drop
handle_extension-operation_handler_example =
    handle_extension-operation_handler context extension_req server process [] host (ascii "//ext1")
      epoch extension_target refl refl refl refl refl refl clock-TellsTime refl sent_v1-IsUtf8

operation_handler-Says_example :
    Says 500 (ascii "error") (operation_handler clock process (ok (ascii "{\"v1\":")) []).0
unfolding ascii decode epoxy.Go.Json.Parse.parse epoxy.Go.Json.Reader.read_string ◌==◌
operation_handler-Says_example =
    operation_handler-Says clock process process-IsReadable (ok (ascii "{\"v1\":")) []

-- The text that the server sends.
encode_tests :
    encode clock (record { v1 = some sent_v1 })
    ≡ ascii
        "{\n    \"v1\": {\n        \"hostname\": \"mlab1\",\n        \"ipv4_address\": \"165.117.240.9\",\n        \"ipv6_address\": \"\",\n        \"last_boot\": \"1970-01-01T00:00:00Z\",\n        \"raw_query\": \"\"\n    }\n}"
unfolding encode webreq_v1 ascii epoxy.Extension.v1_members epoxy.Go.Json.object
encode_tests = refl

-- Keys are folded, unknown members skipped, and a value of the wrong type is an error at the end.
decode_tests :
    decode clock
      (ok (
        ascii
          " {\"V1\": {\"HoSt\\u0000name\": [1, {}], \"IPV4_addreSS\": \"a\\u0041\\n\", \"hostname\": 7, \"raw_query\": \"q\"}}"))
      empty_request
    ≡ (
      err mismatched,
      record {
        v1 = some (record {
          hostname = [];
          ipv4_address = ascii "aA\n";
          ipv6_address = [];
          last_boot = 0;
          raw_query = ascii "q";
        });
      },
    )
unfolding decode ascii epoxy.Go.Json.Parse.parse epoxy.Go.Json.Reader.read_string
    epoxy.Go.Json.Parse.parse_scalar decode_value ◌>>=◌ folds
decode_tests = refl
