-- ===== src/Extension/Answers.antt =====
-- cmd/example_extension_server/main.go: every answer is a JSON text that can be read back.
use epoxy.Base.{ℕ, ◌≡◌, refl, Str, ascii, true, [], ◌∷◌, Error, Outcome, ok, err, arith}
use epoxy.Go.Utf8.{valid_string}
use epoxy.Go.Json.{contents, rune_text, escaped, quote, members, object}
use epoxy.Go.Json.Parse.{Value, no_members, member, parsed, parse}
use epoxy.Go.Json.Quoted.{literal}
use epoxy.Go.Json.Objects.{object-Reads, string_item, string_item-IsReadable}
use epoxy.Go.Json.Reads.{parse-Reads}
use epoxy.Extension.{Request, Clock, DecodeError, decode}
use epoxy.Extension.Service.{Process, Answer, marshal, empty_request, result_of, operation_handler}

-- The texts of times and of errors are UTF-8.
pub record IsReadableProcess {W : Type 0} (p : Process W) : Type 0 where
  pub now : (w : W) → valid_string (p.now w).0 ≡ true
  pub error_text : (e : DecodeError) → valid_string (p.error_text e) ≡ true

-- An answer with a status, whose body is a JSON text of a message with a word for the status.
pub record Says (code : ℕ) (word : Str) (a : Answer) : Type 0 where
  pub coded : a.status ≡ code
  pub message : Str
  pub reads :
      parse a.body
      ≡ parsed (
          Value.object (
            member
              (literal (ascii "status"))
              (Value.string (literal word))
              (member (literal (ascii "message")) (Value.string (literal message)) no_members)))

abbrev code_of : Outcome DecodeError (Unit {0}) → ℕ
code_of (ok u) = 200
code_of (err e) = 500

abbrev word_of : Outcome DecodeError (Unit {0}) → Str
word_of (ok u) = ascii "success"
word_of (err e) = ascii "error"

marshal_read :
    (word message : Str)
    → valid_string word ≡ true
    → valid_string message ≡ true
    → parse (marshal (record { status = word; message = message }))
      ≡ parsed (
          Value.object (
            member
              (literal (ascii "status"))
              (Value.string (literal word))
              (member (literal (ascii "message")) (Value.string (literal message)) no_members)))
unfolding marshal object members quote contents rune_text escaped valid_string ascii
marshal_read word message v u =
    parse-Reads 7 _ _
      (object-Reads 1 0 (string_item (ascii "status") word)
        (string_item (ascii "message") message ∷ [])
        (string_item-IsReadable _ word refl v, (string_item-IsReadable _ message refl u, tt)))
      (omega arith)

module _ {W : Type 0} (clock : Clock) (p : Process W) (readable : IsReadableProcess p) where
  result_Says :
      (r : Outcome DecodeError (Unit {0})) (ext : Request) (w : W)
      → let ((code, result), w') = result_of clock p (r, ext) w in
        Says (code_of r) (word_of r) (record { status = code; body = marshal result })
  unfolding result_of valid_string ascii
  result_Says (ok u) ext w = record {
    coded = refl;
    message = _;
    reads = marshal_read _ _ refl (readable.now _);
  }
  result_Says (err e) ext w = record {
    coded = refl;
    message = _;
    reads = marshal_read _ _ refl (readable.error_text e);
  }

  -- Whatever the body of a request is, and if it cannot be read as well, the service answers with a
  -- JSON text: with the code 200 and a message of status "success" if the body is decoded, and else
  -- with the code 500 and a message of status "error". The texts of times and of errors are UTF-8.
  pub operation_handler-Says :
      (received : Outcome Error Str) (w : W)
      → let r = (decode clock received empty_request).0 in
        Says (code_of r) (word_of r) (operation_handler clock p received w).0
  unfolding operation_handler
  operation_handler-Says received w =
      let (r, ext) = decode clock received empty_request in result_Says r ext w
