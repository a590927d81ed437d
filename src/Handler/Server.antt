-- ===== src/Handler/Server.antt =====
-- handler/handler.go: the server's environment, requests and replies.
use epoxy.Base.{
  ℕ, ◌+◌, Str, ascii, Bool, Option, none, some, List, [], ◌∷◌, Error, action_url_not_found,
  file_url_not_found, unsupported_type, cannot_access_host, bad_status, external, command_failed,
  nil_dereference, Outcome, ok, err, Result,
}
use epoxy.Base.Dict.{Dict, lookup, insert, or_empty}
use epoxy.Base.Exec.{Exec}
use epoxy.Storage.Host.{Host, Runtime}
use epoxy.Extension
use epoxy.Nextboot.Config.{Config}

-- handler.Config: access to Host records.
pub record HostConfig (W : Type 0) : Type 0 where
  pub save : Host → Exec W Error (Unit {0})
  pub load : Str → Exec W Error Host

pub record Env (W : Type 0) : Type 0 where
  pub config : HostConfig W
  pub server_addr : Str
  pub allow_forwarded_requests : Bool
  pub project : Str
  pub storage_prefix_url : Str

-- The parts of url.URL and http.Request that the handlers read or write. `post_form` is what the
-- request's PostForm holds after parsing, and `vars` the variables of the matched route.
pub record Url : Type 0 where
  pub scheme : Str
  pub host : Str
  pub path : Str
  pub raw_query : Str

pub record Request : Type 0 where
  pub method : Str
  pub host : Str
  pub url : Url
  pub vars : Dict Str
  pub header : Dict (List Str)
  pub remote_addr : Str
  pub post_form : Dict (List Str)
  pub body : Str
  pub content_length : ℕ

-- net/url: Parse, and the Hostname of a parsed URL.
pub record Net : Type 0 where
  pub parse : Str → Result Url
  pub hostname : Url → Str

-- encoding/json: what MarshalIndent writes for a configuration.
pub record Json : Type 0 where
  pub config_string : Config → Str

-- What a handler answers: an error's message and status; content of a type; no content; the request
-- that a reverse proxy forwards. Or it panics, or ends the process.
pub data Reply : Type 0 where
  http_error : Str → ℕ → Reply
  content : Str → Str → Reply
  no_content : Reply
  proxied : Request → Reply
  panicked : Error → Reply
  fatal : Reply

-- The world behind the server, and the counter metrics.Stage1Total by its label.
pub record Server (W : Type 0) : Type 0 where
  pub world : W
  pub stage1_total : Dict ℕ

-- A server with its environment, the packages that it calls, and the table storage.Extensions.
pub record Context (W : Type 0) : Type 0 where
  pub env : Env W
  pub runtime : Runtime W
  pub net : Net
  pub json : Json
  pub clock : Extension.Clock
  pub extensions : Dict Str

abbrev pub Handler : Type 0 → Type 0
Handler W = Exec (Server W) Reply Reply

-- err.Error()
error_text : Error → Str
error_text action_url_not_found = ascii "Action URL key not found"
error_text file_url_not_found = ascii "URL key not found in file spec"
error_text unsupported_type = ascii "Unsupported type"
error_text cannot_access_host = ascii "Caller cannot access host"
error_text (bad_status n) = ascii "Bad status code"
error_text (external message) = message
error_text (command_failed args e) = error_text e
error_text nil_dereference = ascii "invalid memory address or nil pointer dereference"

-- http.Error(rw, err.Error(), code)
unfoldable pub http_failure : ℕ → Error → Reply
unfolding error_text
http_failure code e = http_error (error_text e) code

-- The same result, with the reply to an error in its place.
abbrev pub or_reply : {A : Type 0} → (Error → Reply) → Outcome Error A → Outcome Reply A
or_reply reply (ok a) = ok a
or_reply reply (err e) = err (reply e)

module _ {W A : Type 0} where
  -- `m`, with `if err != nil { reply; return }`.
  unfoldable pub try : (Error → Reply) → Exec W Error A → Exec (Server W) Reply A
  try reply m s = let (r, w) = m s.world in (or_reply reply r, record s { world = w })

abbrev or_zero : Option ℕ → ℕ
or_zero none = 0
or_zero (some n) = n

-- metrics.Stage1Total.WithLabelValues(name).Inc()
unfoldable pub count_stage1 : {W : Type 0} → Str → Exec (Server W) Reply (Unit {0})
count_stage1 name s = (
  ok tt,
  record s { stage1_total = insert name (or_zero (lookup name s.stage1_total) + 1) s.stage1_total },
)

-- mux.Vars(req)[name]
unfoldable pub var : Request → Str → Str
var req name = or_empty (lookup name req.vars)

-- mux.Vars(req)["hostname"]
unfoldable pub hostname : Request → Str
unfolding ascii var
hostname req = var req (ascii "hostname")

-- mux.Vars(req)["sessionID"]
unfoldable pub session_id : Request → Str
unfolding ascii var
session_id req = var req (ascii "sessionID")

-- The first value of a header or of a form's field, or "".
unfoldable pub first_value : Str → Dict (List Str) → Str
first_value key values = head (lookup key values)
  where
    head : Option (List Str) → Str
    head none = []
    head (some []) = []
    head (some (v ∷ vs)) = v
