-- ===== src/Handler/Served.antt =====
-- The server's HandleExtension and a service that is built like cmd/example_extension_server.
use epoxy.Base.{Str, ascii, ◌==◌, ◌≡◌, refl, some, false, [], ok, ◌++◌}
use epoxy.Base.Dict.{lookup}
use epoxy.Storage.Host.{Host}
use epoxy.Extension.{encode}
use epoxy.Extension.RoundTrip.{TellsTime, IsUtf8, decode-encode}
use epoxy.Extension.Service.{Process, Answer, marshal, empty_request, result_of, operation_handler}
use epoxy.Handler.Server.{Url, Request, proxied, Server, Context, hostname, session_id}
use epoxy.Handler.Access.{request_is_from_host}
use epoxy.Handler.Proxy.{operation, webreq_v1, webreq, new_reverse_proxy, handle_extension}
use epoxy.Handler.Accepts.{handle_extension_accepts}

-- The service's successful answer to a request with this body.
abbrev pub served : {W : Type 0} → Process W → Str → W → Answer × W
served p body w =
    let (time, w') = p.now (p.println (ascii "Request: " ++ body) w) in
    let raw = marshal (record { status = ascii "success"; message = time }) in
    (record { status = 200; body = raw }, p.println (ascii "Response: " ++ raw) w')

module _ {W V : Type 0} (c : Context W) (req : Request) (s : Server W) (p : Process V) (w : V) where
  -- An extension request from the host that it names, with its extension ID and for a registered
  -- operation with a name and a well-formed URL, is forwarded with a body that a service like the
  -- example decodes: it answers 200 with the time, and prints the body that it was sent. The record's
  -- name and address and the query are UTF-8, and the time of the last boot has a text in RFC 3339,
  -- from which package time reads back that time.
  pub handle_extension-operation_handler :
      (h : Host) (text time : Str) (target : Url)
      → (c.env.config.load (hostname req) s.world).0 ≡ ok h
      → request_is_from_host c.net c.env req h ≡ ok tt
      → session_id req ≡ h.current_session_ids.extension_id
      → (operation req == []) ≡ false
      → lookup (operation req) c.extensions ≡ some text
      → c.net.parse text ≡ ok target
      → TellsTime c.clock
      → c.clock.rfc3339 h.last_session_creation ≡ some time
      → IsUtf8 (webreq_v1 req h)
      → (sent : Request) × ((handle_extension c req s).0 ≡ ok (proxied sent))
        × (operation_handler c.clock p (ok sent.body) w ≡ served p sent.body w)
  unfolding new_reverse_proxy webreq webreq_v1 operation_handler result_of
  handle_extension-operation_handler h text time target l f i n k u tells e utf8 = (
    new_reverse_proxy target (encode c.clock (webreq req h)) req,
    handle_extension_accepts c req s h text target l f i n k u,
    rw (decode-encode c.clock (webreq_v1 req h) time empty_request tells e utf8) refl,
  )
