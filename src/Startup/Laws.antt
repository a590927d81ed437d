-- ===== src/Startup/Laws.antt =====
-- cmd/epoxy_boot_server/main.go: when the server starts.
use epoxy.Base.{
  Str, ascii, ◌==◌, ◌≡◌, refl, ◌∙◌, Bool, true, false, not, ◌&&◌, ◌||◌, List, [], ◌∷◌, ◌++◌,
  Outcome, ok, err, if◌then◌else◌, Bool-cases, inl, inr,
}
use epoxy.Base.Dict.{Dict}
use epoxy.Base.Exec.{◌>>=◌}
use epoxy.Storage.Datastore.{DatastoreClient, DatastoreConfig, new_datastore_config, list}
use epoxy.Metrics.{new_collector}
use epoxy.Handler.Server.{Env}
use epoxy.Handler.Backend.{host_config}
use epoxy.Startup.Environ.{Settings, getenv, variables, init}
use epoxy.Startup.{
  Listener, plain, lets_encrypt, with_files, Services, Failure, handler_env,
  start_metrics_server_async, start_app_engine_server_async, start_tls_server_async, start_servers,
  main,
}

-- The Datastore client is made, and the metrics server listens.
pub record IsAvailable {W : Type 0} (sv : Services W) : Type 0 where
  pub client_made :
      (project : Str) (w : W)
      → (client : DatastoreClient W) × ((sv.new_client project w).0 ≡ ok client)
  pub metrics_served : (addr : Str) (w : W) → (sv.must_serve_metrics addr w).0 ≡ ok tt

-- What must be set in the environment.
abbrev pub is_set : Dict Str → Str → Bool
is_set env name = not (getenv env name == [])

abbrev pub is_public : Dict Str → Bool
is_public env = is_set env (ascii "PUBLIC_HOSTNAME") || is_set env (ascii "GAE_SERVICE")

abbrev pub has_certificate : Dict Str → Bool
has_certificate env = is_set env (ascii "IPXE_CERT_FILE") && is_set env (ascii "IPXE_KEY_FILE")

-- How the environment makes main fare.
abbrev pub starting : Dict Str → Outcome Failure (Unit {0})
starting env =
    if not (is_set env (ascii "GCLOUD_PROJECT"))
    then err Failure.no_project
    else if not (is_public env)
    then err Failure.no_public_hostname
    else if is_set env (ascii "GAE_SERVICE") || has_certificate env
    then ok tt
    else err Failure.no_ipxe_certificate

-- The name under which the server is reached.
abbrev public_name : Dict Str → Str
public_name env =
    if is_set env (ascii "PUBLIC_HOSTNAME")
    then getenv env (ascii "PUBLIC_HOSTNAME")
    else getenv env (ascii "GAE_SERVICE")
      ++ (ascii "-dot-" ++ (getenv env (ascii "GCLOUD_PROJECT") ++ ascii ".appspot.com"))

-- What the handlers are given.
abbrev pub served_env : {W : Type 0} → Dict Str → DatastoreConfig W → Env W
served_env env ds = record {
  config = host_config ds;
  server_addr = public_name env;
  allow_forwarded_requests =
      if getenv env (ascii "ALLOW_FORWARDED_REQUESTS") == ascii "true" then true else false;
  project = getenv env (ascii "GCLOUD_PROJECT");
  storage_prefix_url = getenv env (ascii "STORAGE_PREFIX_URL");
}

-- The port that PORT gives, or 8080.
abbrev port_of : Dict Str → Str
port_of env = if is_set env (ascii "PORT") then getenv env (ascii "PORT") else ascii "8080"

-- The listeners that are started: one without TLS for App Engine; else one of LetsEncrypt on port
-- 443, and one with the iPXE certificate, if there is one, on port 4430.
abbrev pub listeners : Dict Str → List Listener
listeners env =
    if is_set env (ascii "GAE_SERVICE")
    then plain (getenv env (ascii "LISTEN") ++ (ascii ":" ++ port_of env)) ∷ []
    else lets_encrypt (getenv env (ascii "LISTEN") ++ ascii ":443")
        (getenv env (ascii "PUBLIC_HOSTNAME"))
      ∷ (if has_certificate env
          then with_files ((getenv env (ascii "LISTEN") ++ ascii ":443") ++ ascii "0")
              (getenv env (ascii "IPXE_CERT_FILE")) (getenv env (ascii "IPXE_KEY_FILE"))
            ∷ []
          else [])

append_not_empty : (s t : Str) → (s == []) ≡ false → (s ++ t == []) ≡ false
unfolding ◌==◌
append_not_empty [] t e = cc
append_not_empty (c ∷ s) t e = refl

module _ {W : Type 0} (sv : Services W) where
  -- The listeners are started in turn.
  unfoldable pub listening : List Listener → Env W → W → W
  listening [] env w = w
  listening (l ∷ ls) env w = listening ls env (sv.listen_async l env w)

  -- Both collectors are registered, and the metrics server is started.
  abbrev pub measured : DatastoreConfig W → W → W
  measured ds w =
      (sv.must_serve_metrics (ascii ":9000") (
        sv.register (new_collector (ascii "epoxy_last_success") (list ds))
          (sv.register (new_collector (ascii "epoxy_last_boot") (list ds)) w))).1

module _ {W : Type 0} (sv : Services W) (available : IsAvailable sv) where
  metrics_started :
      (ds : DatastoreConfig W) (w : W)
      → start_metrics_server_async sv ds w ≡ (ok tt, measured sv ds w)
  unfolding start_metrics_server_async ◌>>=◌
  metrics_started ds w = rw (available.metrics_served (ascii ":9000") _) refl

  -- The Datastore of a project.
  abbrev pub store_of : Str → W → DatastoreConfig W
  store_of project w = new_datastore_config (available.client_made project w).0

  abbrev started_world : List Listener → Settings → W → W
  started_world ls s w =
      let ds = store_of s.project_id w in
      listening sv ls (handler_env sv s ds) (measured sv ds (sv.new_client s.project_id w).1)

  abbrev listeners_of : Str → Settings → List Listener
  listeners_of service s =
      if not (service == [])
      then plain (s.bind_address ++ (ascii ":" ++ s.bind_port)) ∷ []
      else lets_encrypt (s.bind_address ++ ascii ":443") s.public_hostname
        ∷ (if not (s.server_cert == []) && not (s.server_key == [])
            then with_files ((s.bind_address ++ ascii ":443") ++ ascii "0") s.server_cert
                s.server_key
              ∷ []
            else [])

  servers_started :
      (service : Str) (s : Settings) (w : W)
      → start_servers sv service s w ≡ (
        if not (service == []) || (not (s.server_cert == []) && not (s.server_key == []))
            then ok tt
            else err Failure.no_ipxe_certificate,
        started_world (listeners_of service s) s w,
      )
  unfolding start_servers ◌>>=◌ start_tls_server_async start_app_engine_server_async listening
  servers_started service s w =
      let (client, made) = available.client_made s.project_id w in
      let metrics =
        metrics_started (new_datastore_config client) (sv.new_client s.project_id w).1 in
      elim (Bool-cases (service == [])) [
        | inr e ↦ rw (made, metrics, e) refl
        | inl e ↦ elim (Bool-cases (s.server_cert == [])) [
          | inl e₁ ↦ rw (made, metrics, e, e₁) refl
          | inr e₁ ↦ elim (Bool-cases (s.server_key == [])) [
            | inl e₂ ↦ rw (made, metrics, e, e₁, e₂) refl
            | inr e₂ ↦ rw (made, metrics, e, e₁, e₂) refl
          ]
        ]
      ]

  -- The server's world after main, up to where it blocks.
  abbrev pub world_after : Dict Str → W → W
  world_after env w =
      if not (is_set env (ascii "GCLOUD_PROJECT")) || not (is_public env)
      then w
      else let project = getenv env (ascii "GCLOUD_PROJECT") in
        let ds = store_of project w in
        listening sv (listeners env) (served_env env ds)
          (measured sv ds (sv.new_client project w).1)

  -- Where the Datastore client can be made and the metrics server listens, the environment decides how
  -- main fares. Without a project it ends with that failure, and else without a public hostname and an
  -- App Engine service with that failure, and nothing is started. Else the metrics server is started,
  -- and then, for App Engine, a server without TLS; without App Engine, one with certificates of
  -- LetsEncrypt and one with those of iPXE, without whose two files main ends with that failure after
  -- the first. In the other cases it goes on to block. The handlers
  -- get the Datastore, the public name, which for App Engine defaults to that of the service, the
  -- project, the storage prefix, and whether forwarded requests are allowed.
  pub main_fares : (env : Dict Str) (w : W) → main sv env w ≡ (starting env, world_after env w)
  unfolding main variables init handler_env listening
  main_fares env w =
      let service = getenv env (ascii "GAE_SERVICE") in
      elim (Bool-cases (getenv env (ascii "GCLOUD_PROJECT") == [])) [
        | inl e ↦ rw e refl
        | inr e ↦ elim (Bool-cases (service == [])) [
          | inl e₁ ↦ elim (Bool-cases (getenv env (ascii "PUBLIC_HOSTNAME") == [])) [
            | inl e₂ ↦ rw (e, e₁, e₂) refl
            | inr e₂ ↦ rw (e, e₁, e₂) (servers_started service _ w ∙ rw e₁ refl)
          ]
          | inr e₁ ↦ elim (Bool-cases (getenv env (ascii "PUBLIC_HOSTNAME") == [])) [
            | inl e₂ ↦
                let named =
                  append_not_empty service
                    (ascii "-dot-" ++ (getenv env (ascii "GCLOUD_PROJECT") ++ ascii ".appspot.com"))
                    e₁ in
                rw (e, e₁, e₂, named) (servers_started service _ w ∙ rw e₁ refl)
            | inr e₂ ↦ rw (e, e₁, e₂, e₂) (servers_started service _ w ∙ rw e₁ refl)
          ]
        ]
      ]
