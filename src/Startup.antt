-- ===== src/Startup.antt =====
-- cmd/epoxy_boot_server/main.go: the start of the server, up to where main blocks.
pub mod Environ
pub mod Laws
use epoxy.Base.{Str, ascii, ◌==◌, Bool, not, ◌||◌, [], ◌++◌, Error, Outcome, ok, err, if◌then◌else◌}
use epoxy.Base.Dict.{Dict}
use epoxy.Base.Exec.{Exec, ◌>>=◌, ◌>>◌, pure, stop}
use epoxy.Storage.Datastore.{DatastoreClient, DatastoreConfig, new_datastore_config, list}
use epoxy.Metrics.{Collector, new_collector}
use epoxy.Handler.Server.{Env}
use epoxy.Handler.Backend.{host_config}
use epoxy.Startup.Environ.{Settings, getenv, variables, init}

-- A server that accepts connections: without TLS, with certificates of LetsEncrypt for a host, or with
-- a certificate and a key from files.
pub data Listener : Type 0 where
  plain : (addr : Str) → Listener
  lets_encrypt : (addr hostname : Str) → Listener
  with_files : (addr cert key : Str) → Listener

-- Packages datastore, prometheus, prometheusx and httpx. What Register and the calls that listen
-- return is dropped. A listener serves the routes over an Env.
pub record Services (W : Type 0) : Type 0 where
  pub new_client : Str → Exec W Error (DatastoreClient W)
  pub register : Collector W → W → W
  pub must_serve_metrics : Str → Exec W Error (Unit {0})
  pub listen_async : Listener → Env W → W → W

-- Why main ends before it blocks.
pub data Failure : Type 0 where
  no_project no_public_hostname no_ipxe_certificate : Failure
  service_failed : Error → Failure

abbrev failed_on : {A : Type 0} → Outcome Error A → Outcome Failure A
failed_on (ok value) = ok value
failed_on (err e) = err (service_failed e)

abbrev pub must : {W A : Type 0} → Exec W Error A → Exec W Failure A
must m w = let (r, w') = m w in (failed_on r, w')

abbrev acts : {W : Type 0} → (W → W) → Exec W Failure (Unit {0})
acts f w = (ok tt, f w)

module _ {W : Type 0} (sv : Services W) where
  -- startMetricsServerAsync, with setupMetrics
  unfoldable pub start_metrics_server_async : DatastoreConfig W → Exec W Failure (Unit {0})
  start_metrics_server_async ds = do
    acts (sv.register (new_collector (ascii "epoxy_last_boot") (list ds)))
    acts (sv.register (new_collector (ascii "epoxy_last_success") (list ds)))
    must (sv.must_serve_metrics (ascii ":9000"))

  unfoldable pub start_app_engine_server_async : Str → Env W → Exec W Failure (Unit {0})
  start_app_engine_server_async addr env = acts (sv.listen_async (plain addr) env)

  -- startTLSServerAsync, with setupLetsEncryptServer
  unfoldable pub start_tls_server_async : Settings → Env W → Exec W Failure (Unit {0})
  start_tls_server_async s env = do
    let tls_addr = s.bind_address ++ ascii ":443"
    acts (sv.listen_async (lets_encrypt tls_addr s.public_hostname) env)
    if (s.server_cert == []) || (s.server_key == [])
        then stop no_ipxe_certificate
        else acts
            (sv.listen_async (with_files (tls_addr ++ ascii "0") s.server_cert s.server_key) env)

  unfoldable pub handler_env : Settings → DatastoreConfig W → Env W
  handler_env s ds = record {
    config = host_config ds;
    server_addr = s.public_hostname;
    allow_forwarded_requests = s.allow_forwarded_requests;
    project = s.project_id;
    storage_prefix_url = s.storage_prefix_url;
  }

  -- The servers that main starts when it has its settings.
  unfoldable pub start_servers : Str → Settings → Exec W Failure (Unit {0})
  start_servers service s = do
    client ← must (sv.new_client s.project_id)
    let ds = new_datastore_config client
    start_metrics_server_async ds
    if not (service == [])
        then start_app_engine_server_async (s.bind_address ++ (ascii ":" ++ s.bind_port))
            (handler_env s ds)
        else start_tls_server_async s (handler_env s ds)

  unfoldable pub main : Dict Str → Exec W Failure (Unit {0})
  main env =
      let s = init env (variables env) in
      let started = start_servers (getenv env (ascii "GAE_SERVICE")) s in
      if s.project_id == []
      then stop no_project
      else if s.public_hostname == []
      then stop no_public_hostname
      else started
