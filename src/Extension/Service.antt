-- ===== src/Extension/Service.antt =====
-- cmd/example_extension_server/main.go: a service that answers extension requests.
use epoxy.Base.{ℕ, Str, ascii, none, [], ◌∷◌, ◌++◌, Error, Outcome, ok, err}
use epoxy.Go.Json.{quote, object}
use epoxy.Extension.{Request, Clock, DecodeError, encode, decode}

pub record ReturnMessage : Type 0 where
  pub status : Str
  pub message : Str

-- The standard output, the text of time.Now(), and err.Error().
pub record Process (W : Type 0) : Type 0 where
  pub println : Str → W → W
  pub now : W → Str × W
  pub error_text : DecodeError → Str

-- What http.ResponseWriter is given: the status and the body.
pub record Answer : Type 0 where
  pub status : ℕ
  pub body : Str

-- json.MarshalIndent(result, "", "    ")
unfoldable pub marshal : ReturnMessage → Str
unfolding ascii
marshal result =
    object 0 ((ascii "status", quote result.status) ∷ (ascii "message", quote result.message) ∷ [])

abbrev pub empty_request : Request
empty_request = record { v1 = none }

module _ {W : Type 0} (clock : Clock) (p : Process W) where
  -- The answer to a decoded request, or to an error.
  unfoldable pub result_of : Outcome DecodeError (Unit {0}) × Request → W → (ℕ × ReturnMessage) × W
  result_of (err e, ext) w = ((500, record { status = ascii "error"; message = p.error_text e }), w)
  result_of (ok u, ext) w =
      let (time, w') = p.now (p.println (ascii "Request: " ++ encode clock ext) w) in
      ((200, record { status = ascii "success"; message = time }), w')

  -- `body` is what reading the request's body comes to.
  unfoldable pub operation_handler : Outcome Error Str → W → Answer × W
  operation_handler body w =
      let ((status, result), w') = result_of (decode clock body empty_request) w in
      let raw = marshal result in
      (record { status = status; body = raw }, p.println (ascii "Response: " ++ raw) w')
