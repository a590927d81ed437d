-- ===== src/Tests/Backend.antt =====
-- A server over an association list of hosts, whose random bytes are all 1, as in
-- storage/host_test.go, and whose clock stands still.
use epoxy.Base.{
  ℕ, zero, suc, Str, ascii, ◌≡◌, refl, inl, true, false, Option, none, some, [], ◌∷◌, arith, Error,
  external, ap, Outcome, ok, err, length, same_byte, ◌==◌, if◌then◌else◌,
}
use epoxy.Base.Dict.{Dict, lookup, insert, lookup-insert}
use epoxy.Go.Strings.{drop}
use epoxy.Go.Base64.RoundTrip.{AreBytes}
use epoxy.Storage.Host.{Host, Runtime, SessionIds}
use epoxy.Storage.Sessions.{IsRuntime}
use epoxy.Extension
use epoxy.Handler.Server.{HostConfig, Env, Request, Net, Json, Server, Context}
use epoxy.Handler.Store.{IsStore}

abbrev pub Hosts : Type 0
Hosts = Dict Host

abbrev pub ones : ℕ → Str
ones zero = []
ones (suc n) = 1 ∷ ones n

length-ones : (n : ℕ) → length (ones n) ≡ n
length-ones zero = refl
length-ones (suc n) = ap suc (length-ones n)

ones-AreBytes : (n : ℕ) → AreBytes (ones n)
ones-AreBytes zero = tt
ones-AreBytes (suc n) = (omega arith, ones-AreBytes n)

abbrev pub runtime : Runtime Hosts
runtime = record { rand_read = λ n w. (ok (ones n), w); time_now = λ w. (ok 1000, w) }

pub runtime-IsRuntime : IsRuntime runtime
runtime-IsRuntime = record {
  fills =
      λ n w b e. let same : b ≡ ones n = ground arith in rw same (length-ones n, ones-AreBytes n);
}

abbrev or_missing : Option Host → Outcome Error Host
or_missing none = err (external [])
or_missing (some h) = ok h

abbrev pub stored : Hosts → Str → Option Host
stored w name = lookup name w

abbrev pub storage : HostConfig Hosts
storage = record {
  save = λ h w. (ok tt, insert h.name h w);
  load = λ name w. (or_missing (lookup name w), w);
}

or_missing-ok : (o : Option Host) (h : Host) → or_missing o ≡ ok h → o ≡ some h
or_missing-ok none h e = cc
or_missing-ok (some h') h e = ground arith

pub storage-IsStore : IsStore stored storage runtime
storage-IsStore = record {
  load_keeps = λ name w. refl;
  load_found = λ name w h e. or_missing-ok (lookup name w) h e;
  save_ok = λ h w j e. lookup-insert h.name j h w;
  save_err = λ h w x j e. inl (cc e);
  rand_keeps = λ n w. refl;
  time_keeps = λ w. refl;
}

-- A URL parser for references of the form "//host".
abbrev pub net : Net
net = record {
  parse = λ text. ok (record { scheme = []; host = drop 2 text; path = []; raw_query = [] });
  hostname = λ u. u.host;
}

abbrev pub json : Json
json = record { config_string = λ c. ascii "{}" }

abbrev pub epoch : Str
epoch = ascii "1970-01-01T00:00:00Z"

-- A clock whose only text of a time is the epoch, for the time 0.
abbrev pub clock : Extension.Clock
clock = record {
  rfc3339 = λ t. if same_byte t 0 then some epoch else none;
  parse_rfc3339 = λ text. if text == epoch then ok 0 else err (external []);
}

abbrev pub sessions : SessionIds
sessions = record {
  stage2_id = ascii "01234";
  stage3_id = ascii "56789";
  report_id = ascii "86420";
  extension_id = ascii "75319";
}

abbrev pub host : Host
host = record {
  name = ascii "mlab1";
  ipv4_addr = ascii "165.117.240.9";
  boot =
      (ascii "stage1.ipxe", ascii "https://example.com/{{VERSION}}/stage1to2.ipxe")
      ∷ (ascii "stage2", ascii "https://example.com/stage2to3.json")
      ∷ [];
  update = [];
  images_version = ascii "latest";
  update_enabled = false;
  extensions = ascii "ext1" ∷ ascii "ext2" ∷ [];
  current_session_ids = sessions;
  last_session_creation = 0;
  last_report = 0;
  last_success = 0;
  collected_information = [];
}

abbrev pub hosts : Hosts
hosts = (host.name, host) ∷ []

abbrev pub server : Server Hosts
server = record { world = hosts; stage1_total = [] }

abbrev pub env : Env Hosts
env = record {
  config = storage;
  server_addr = ascii "epoxy.example.net";
  allow_forwarded_requests = true;
  project = ascii "mlab-sandbox";
  storage_prefix_url = ascii "//storage";
}

abbrev pub context : Context Hosts
context = record {
  env = env;
  runtime = runtime;
  net = net;
  json = json;
  clock = clock;
  extensions = (ascii "ext1", ascii "//ext1") ∷ [];
}

-- A request from the address of `host`, forwarded by one proxy.
abbrev pub request : Str → Str → Request
request method path = record {
  method = method;
  host = ascii "epoxy.example.net";
  url = record { scheme = []; host = []; path = path; raw_query = [] };
  vars =
      (ascii "hostname", ascii "mlab1")
      ∷ (ascii "sessionID", ascii "86420")
      ∷ (ascii "operation", ascii "ext1")
      ∷ (ascii "path", ascii "stage3.gz")
      ∷ [];
  header = (ascii "X-Forwarded-For", ascii "165.117.240.9, 10.0.0.1" ∷ []) ∷ [];
  remote_addr = ascii "10.0.0.2";
  post_form = (ascii "message", ascii "success" ∷ []) ∷ (ascii "serial", ascii "s1" ∷ []) ∷ [];
  body = [];
  content_length = 0;
}

abbrev pub report_req : Request
report_req = request (ascii "POST") (ascii "/v1/boot/mlab1/86420/report")

abbrev pub stage1_req : Request
stage1_req = request (ascii "POST") (ascii "/v1/boot/mlab1/stage1.ipxe")

abbrev pub stage2_req : Request
stage2_req = request (ascii "POST") (ascii "/v1/boot/mlab1/01234/stage2")

abbrev pub extension_req : Request
extension_req =
    let req = request (ascii "POST") (ascii "/v1/boot/mlab1/75319/extension/ext1") in
    record req { vars = insert (ascii "sessionID") (ascii "75319") req.vars }

abbrev pub storage_req : Request
storage_req = request (ascii "GET") (ascii "/v1/storage/stage3.gz")

abbrev pub known_id : Str
known_id = ascii "AQEBAQEBAQEBAQEBAQEBAQEBAQE"

abbrev pub known_ids : SessionIds
known_ids = record {
  stage2_id = known_id;
  stage3_id = known_id;
  report_id = known_id;
  extension_id = known_id;
}

-- The record with the session IDs that `runtime` gives.
abbrev pub renewed : Host → Host
renewed h = record h { current_session_ids = known_ids; last_session_creation = 1000 }
