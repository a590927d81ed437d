-- ===== src/Handler/Forwarding.antt =====
-- What the server passes on: requests to extension services, and to storage.
use epoxy.Base.{
  Str, ascii, ◌==◌, eq_iff, ne_of_eq-false, ◌≡◌, ◌≢◌, refl, ◌∷◌, [], ◌++◌, Option, none, some,
  Error, Outcome, ok, err, not, arith,
}
use epoxy.Base.Dict.{lookup}
use epoxy.Base.Exec.{lift}
use epoxy.Base.Exec.Ensures.{
  Ends, Ensures, Ensures-bind, Ensures-pure, Ensures-stop, Ensures-if, Ensures-assume,
}
use epoxy.Storage.Host.{Host}
use epoxy.Extension
use epoxy.Storage.Sessions.{IsRuntime}
use epoxy.Handler.Server.{
  Url, Request, Reply, proxied, fatal, Server, Context, or_reply, var, session_id,
}
use epoxy.Handler.Boot.{load_host, check_session}
use epoxy.Handler.Proxy.{
  operation, call_extension, find_extension, new_reverse_proxy, storage_director, webreq,
  handle_extension, handle_storage_proxy,
}
use epoxy.Handler.Store.{IsStore}
use epoxy.Handler.Steps.{View, IsAuthorised, View-Touched}
use epoxy.Handler.Outcomes.{Disturbed, load_step, check_session-Ensures}

module _ {W : Type 0} (c : Context W) (stored : W → Str → Option Host)
    (laws : IsStore stored c.env.config c.runtime) (good : IsRuntime c.runtime)
    (v : Str → Option Host) where
  abbrev Seen : Server W → Type 0
  Seen = View c stored laws good v

  -- An extension request that is passed on: the host's record, under the session that it was given,
  -- goes to the registered service, and nothing is stored.
  pub record IsForwarded (req : Request) (r : Reply) (s : Server W) : Type 0 where
    pub host : Host
    pub text : Str
    pub target : Url
    pub authorised : IsAuthorised c stored laws good v req host
    pub session : session_id req ≡ host.current_session_ids.extension_id
    pub registered : lookup (operation req) c.extensions ≡ some text
    pub parsed : c.net.parse text ≡ ok target
    pub unchanged : Seen s
    pub reply :
        r ≡ proxied (new_reverse_proxy target (Extension.encode c.clock (webreq req host)) req)

  call_Ensures :
      (req : Request) (host : Host) (text : Str)
      → IsAuthorised c stored laws good v req host
      → session_id req ≡ host.current_session_ids.extension_id
      → lookup (operation req) c.extensions ≡ some text
      → Ensures Seen
          (call_extension c req host text)
          (IsForwarded req)
          (Disturbed c stored laws good v req)
  unfolding call_extension
  call_Ensures req host text a e reg =
      Ensures-bind (lift (or_reply (λ _. _) (c.net.parse text))) _
        (record { at = λ s view. parsed_or _ (c.net.parse text) refl s view })
        λ url. Ensures-assume _ λ p. Ensures-pure _ λ s view. record {
          host = host;
          text = text;
          target = url;
          authorised = a;
          session = e;
          registered = reg;
          parsed = p;
          unchanged = view;
          reply = refl;
        }
    where
      parsed_or :
          (refusal : Reply) (r : Outcome Error Url)
          → c.net.parse text ≡ r
          → (s : Server W) → Seen s
          → Ends
              (λ url s'. (c.net.parse text ≡ ok url) × Seen s')
              (Disturbed c stored laws good v req)
              (or_reply (λ _. refusal) r)
              s
      parsed_or refusal (ok url) p s view = (p, view)
      parsed_or refusal (err x) p s view = View-Touched c stored laws good v req s view

  find_Ensures :
      (req : Request) (host : Host) (found : Option Str)
      → lookup (operation req) c.extensions ≡ found
      → IsAuthorised c stored laws good v req host
      → session_id req ≡ host.current_session_ids.extension_id
      → Ensures Seen
          (find_extension c req host found)
          (IsForwarded req)
          (Disturbed c stored laws good v req)
  unfolding find_extension
  find_Ensures req host none reg a e =
      Ensures-stop _ λ s view. View-Touched c stored laws good v req s view
  find_Ensures req host (some text) reg a e = call_Ensures req host text a e reg

  pub handle_extension-Ensures :
      (req : Request)
      → Ensures Seen (handle_extension c req) (IsForwarded req) (Disturbed c stored laws good v req)
  unfolding handle_extension
  handle_extension-Ensures req =
      Ensures-bind (load_host c req) _ (load_step c stored laws good v req) λ host.
        Ensures-assume _ λ a.
          Ensures-bind (check_session req host.current_session_ids.extension_id) _
            (check_session-Ensures c stored laws good v req host.current_session_ids.extension_id)
            λ _. Ensures-assume _ λ e.
              Ensures-if (operation req == []) _ _
                (λ _. Ensures-stop _ λ s view. View-Touched c stored laws good v req s view)
                λ _. find_Ensures req host (lookup (operation req) c.extensions) refl a e

  -- The storage proxy stores nothing, and passes on GET requests only: to the server of the
  -- configured prefix, with the requested path under the prefix's path, and without a query.
  pub record IsProxied (req : Request) (r : Reply) (s : Server W) : Type 0 where
    pub target : Url
    pub sent : Request
    pub method : (req.method ≡ ascii "GET") × (sent.method ≡ req.method)
    pub enabled : c.env.storage_prefix_url ≢ []
    pub parsed : c.net.parse c.env.storage_prefix_url ≡ ok target
    pub host : (sent.host ≡ target.host) × (sent.url.host ≡ target.host)
    pub scheme : sent.url.scheme ≡ target.scheme
    pub path : sent.url.path ≡ target.path ++ b'/' ∷ var req (ascii "path")
    pub no_query : sent.url.raw_query ≡ []
    pub unchanged : Seen s
    pub reply : r ≡ proxied sent

  module _ (req : Request) (get : req.method ≡ ascii "GET")
      (enabled : c.env.storage_prefix_url ≢ []) where
    proxied_or :
        (r : Outcome Error Url)
        → c.net.parse c.env.storage_prefix_url ≡ r
        → (s : Server W) → Seen s
        → Ends
            (λ url s'. (c.net.parse c.env.storage_prefix_url ≡ ok url) × Seen s')
            (Disturbed c stored laws good v req)
            (or_reply (λ _. fatal) r)
            s
    proxied_or (ok url) p s view = (p, view)
    proxied_or (err x) p s view = View-Touched c stored laws good v req s view

  pub handle_storage_proxy-Ensures :
      (req : Request)
      → Ensures Seen
          (handle_storage_proxy c req)
          (IsProxied req)
          (Disturbed c stored laws good v req)
  unfolding handle_storage_proxy storage_director
  handle_storage_proxy-Ensures req =
      Ensures-if (c.env.storage_prefix_url == []) _ _
        (λ _. Ensures-stop _ λ s view. View-Touched c stored laws good v req s view)
        λ set.
          Ensures-if (not (req.method == ascii "GET")) _ _
            (λ _. Ensures-stop _ λ s view. View-Touched c stored laws good v req s view)
            λ get_only.
              let enabled = ne_of_eq-false c.env.storage_prefix_url [] set in
              let get = (eq_iff req.method (ascii "GET")).0 (ground arith) in
              Ensures-bind _ _
                (record {
                  at = λ s view.
                      proxied_or req get enabled (c.net.parse c.env.storage_prefix_url) refl s view;
                })
                λ target. Ensures-assume _ λ p. Ensures-pure _ λ s view. record {
                  target = target;
                  sent = _;
                  method = (get, refl);
                  enabled = enabled;
                  parsed = p;
                  host = (refl, refl);
                  scheme = refl;
                  path = refl;
                  no_query = refl;
                  unchanged = view;
                  reply = refl;
                }
