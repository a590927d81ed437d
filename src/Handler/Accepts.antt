-- ===== src/Handler/Accepts.antt =====
-- handler/handler.go: requests that are answered, where the storage and the packages that the
-- handlers call do their work.
use epoxy.Base.{Str, ascii, ◌==◌, eq_refl, ◌≡◌, some, false, ok, [], ◌∷◌}
use epoxy.Base.Dict.{lookup}
use epoxy.Base.Exec.{◌>>=◌}
use epoxy.Go.Fmt.{fprintf}
use epoxy.Go.Strings.{path_base}
use epoxy.Storage.Host.{Host, generate_session_ids}
use epoxy.Extension
use epoxy.Storage.Information.{add_information}
use epoxy.Template.Scripts.{format_stage1_ipxe_script, create_stage1_action, format_json_config}
use epoxy.Handler.Server.{
  Url, Request, content, proxied, Server, Context, try, count_stage1, hostname, session_id, var,
}
use epoxy.Handler.Access.{request_is_from_host}
use epoxy.Handler.Boot.{
  text_plain, application_json, load_host, check_session, generate_stage1_ipxe,
  generate_stage1_json, generate_json_config,
}
use epoxy.Handler.Proxy.{
  operation, webreq, new_reverse_proxy, storage_director, call_extension, find_extension,
  handle_extension, handle_storage_proxy,
}

module _ {W : Type 0} (c : Context W) (req : Request) (s : Server W) where
  -- The world after the record is loaded.
  abbrev pub after_load : W
  after_load = (c.env.config.load (hostname req) s.world).1

  -- A stage1.ipxe request from the host that it names is answered with the script of the record
  -- with the collected information and new session IDs, if random bytes are there and the record
  -- can be loaded and saved.
  generate_stage1_ipxe_accepts :
      (h new : Host)
      → (c.env.config.load (hostname req) s.world).0 ≡ ok h
      → request_is_from_host c.net c.env req h ≡ ok tt
      → (generate_session_ids c.runtime (add_information req.post_form h) after_load).0 ≡ ok new
      → (c.env.config.save new
          (generate_session_ids c.runtime (add_information req.post_form h) after_load).1).0
        ≡ ok tt
      → (generate_stage1_ipxe c req s).0
        ≡ ok (content text_plain (fprintf (format_stage1_ipxe_script new c.env.server_addr)))
  unfolding generate_stage1_ipxe load_host try count_stage1 ◌>>=◌
  generate_stage1_ipxe_accepts h new l f g w = simp (l, f, g, w)

  -- A stage1.json request from the host that it names is answered with the action of the record
  -- with new session IDs, if random bytes are there and the record can be loaded and saved.
  generate_stage1_json_accepts :
      (h new : Host)
      → (c.env.config.load (hostname req) s.world).0 ≡ ok h
      → request_is_from_host c.net c.env req h ≡ ok tt
      → (generate_session_ids c.runtime h after_load).0 ≡ ok new
      → (c.env.config.save new (generate_session_ids c.runtime h after_load).1).0 ≡ ok tt
      → (generate_stage1_json c req s).0
        ≡ ok (
            content application_json
              (fprintf (c.json.config_string (create_stage1_action new c.env.server_addr))))
  unfolding generate_stage1_json load_host try count_stage1 ◌>>=◌
  generate_stage1_json_accepts h new l f g w = simp (l, f, g, w)

  -- A stage2 or stage3 request from the host that it names is answered with the configuration for
  -- the last element of its path, if the record can be loaded.
  generate_json_config_accepts :
      (h : Host)
      → (c.env.config.load (hostname req) s.world).0 ≡ ok h
      → request_is_from_host c.net c.env req h ≡ ok tt
      → (generate_json_config c req s).0
        ≡ ok (
            content application_json
              (fprintf (c.json.config_string (format_json_config h (path_base req.url.path)))))
  unfolding generate_json_config load_host try ◌>>=◌
  generate_json_config_accepts h l f = simp (l, f)

  -- An extension request from the host that it names, with its extension ID and for a registered
  -- operation with a name and a well-formed URL, is forwarded to that URL.
  pub handle_extension_accepts :
      (h : Host) (text : Str) (target : Url)
      → (c.env.config.load (hostname req) s.world).0 ≡ ok h
      → request_is_from_host c.net c.env req h ≡ ok tt
      → session_id req ≡ h.current_session_ids.extension_id
      → (operation req == []) ≡ false
      → lookup (operation req) c.extensions ≡ some text
      → c.net.parse text ≡ ok target
      → (handle_extension c req s).0
        ≡ ok (proxied (new_reverse_proxy target (Extension.encode c.clock (webreq req h)) req))
  unfolding handle_extension find_extension call_extension check_session load_host try ◌>>=◌
  handle_extension_accepts h text target l f i n k p = simp (l, f, i, eq_refl, n, k, p)

  -- A GET request for storage is passed on, if a prefix is configured and is a well-formed URL.
  handle_storage_proxy_accepts :
      (target : Url)
      → (c.env.storage_prefix_url == []) ≡ false
      → req.method ≡ ascii "GET"
      → c.net.parse c.env.storage_prefix_url ≡ ok target
      → (handle_storage_proxy c req s).0
        ≡ ok (
            proxied (
              storage_director target
                (record req { url = record req.url { path = b'/' ∷ var req (ascii "path") } })))
  unfolding handle_storage_proxy ◌>>=◌
  handle_storage_proxy_accepts target e g p = simp (e, g, eq_refl, p)
