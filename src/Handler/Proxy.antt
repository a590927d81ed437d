-- ===== src/Handler/Proxy.antt =====
-- handler/handler.go: requests that the server passes on, to extension services and to storage.
use epoxy.Base.{Str, ascii, ◌==◌, not, Option, none, some, [], ◌∷◌, ◌++◌, length, if◌then◌else◌}
use epoxy.Base.Dict.{lookup, insert, found}
use epoxy.Base.Exec.{pure, stop, lift, ◌>>=◌, ◌>>◌}
use epoxy.Storage.Host.{Host}
use epoxy.Extension
use epoxy.Handler.Server.{Url, Request, http_error, proxied, fatal, Context, Handler, or_reply, var}
use epoxy.Handler.Boot.{load_host, check_session}

-- newReverseProxy: the request after the director has rewritten it.
unfoldable pub new_reverse_proxy : Url → Str → Request → Request
new_reverse_proxy target body req = record req {
  url = target;
  body = body;
  content_length = length body;
}

-- The director of newStorageReverseProxy.
unfoldable pub storage_director : Url → Request → Request
unfolding ascii
storage_director target req =
    let user_agent = ascii "User-Agent" in
    record req {
      host = target.host;
      url = record {
        scheme = target.scheme;
        host = target.host;
        path = target.path ++ req.url.path;
        raw_query = [];
      };
      header =
          if found (lookup user_agent req.header)
          then req.header
          else insert user_agent ([] ∷ []) req.header;
    }

-- The V1 of webreq.
unfoldable pub webreq_v1 : Request → Host → Extension.V1
webreq_v1 req host = record {
  hostname = host.name;
  ipv4_address = host.ipv4_addr;
  ipv6_address = [];
  last_boot = host.last_session_creation;
  raw_query = req.url.raw_query;
}

unfoldable pub webreq : Request → Host → Extension.Request
webreq req host = record { v1 = some (webreq_v1 req host) }

-- mux.Vars(req)["operation"]
unfoldable pub operation : Request → Str
unfolding ascii var
operation req = var req (ascii "operation")

module _ {W : Type 0} (c : Context W) where
  -- From the parsing of the extension's URL on.
  unfoldable pub call_extension : Request → Host → Str → Handler W
  unfolding ascii
  call_extension req host text = do
    let refusal =
        http_error (ascii "Failed to parse extension URL for operation: " ++ operation req) 500
    ext_url ← lift (or_reply (λ _. refusal) (c.net.parse text))
    pure (proxied (new_reverse_proxy ext_url (Extension.encode c.clock (webreq req host)) req))

  -- storage.Extensions[operation], which may be missing
  unfoldable pub find_extension : Request → Host → Option Str → Handler W
  unfolding ascii
  find_extension req host none =
      stop (http_error (ascii "Unknown Extension for operation: " ++ operation req) 500)
  find_extension req host (some text) = call_extension req host text

  unfoldable pub handle_extension : Request → Handler W
  unfolding ascii
  handle_extension req = do
    host ← load_host c req
    check_session req host.current_session_ids.extension_id
    if operation req == []
        then stop (http_error (ascii "Zero length operation is invalid") 400)
        else find_extension req host (lookup (operation req) c.extensions)

  unfoldable pub handle_storage_proxy : Request → Handler W
  handle_storage_proxy req =
      if c.env.storage_prefix_url == []
      then stop (http_error (ascii "StoragePrefixURL is not specified") 501)
      else if not (req.method == ascii "GET")
      then stop (http_error (ascii "Wrong HTTP method") 405)
      else do
        let url = record req.url { path = b'/' ∷ var req (ascii "path") }
        target ← lift (or_reply (λ _. fatal) (c.net.parse c.env.storage_prefix_url))
        pure (proxied (storage_director target (record req { url = url })))
