-- ===== src/Startup/Environ.antt =====
-- cmd/epoxy_boot_server/main.go: the settings, from the environment.
use epoxy.Base.{Str, ascii, ◌==◌, Bool, true, false, not, ◌&&◌, [], ◌++◌, if◌then◌else◌}
use epoxy.Base.Dict.{Dict, lookup, or_empty}

pub record Settings : Type 0 where
  pub project_id : Str
  pub public_hostname : Str
  pub bind_address : Str
  pub bind_port : Str
  pub allow_forwarded_requests : Bool
  pub server_cert : Str
  pub server_key : Str
  pub storage_prefix_url : Str

-- os.Getenv
abbrev pub getenv : Dict Str → Str → Str
getenv env name = or_empty (lookup name env)

-- The package's variables.
unfoldable pub variables : Dict Str → Settings
variables env = record {
  project_id = getenv env (ascii "GCLOUD_PROJECT");
  public_hostname = getenv env (ascii "PUBLIC_HOSTNAME");
  bind_address = getenv env (ascii "LISTEN");
  bind_port = ascii "8080";
  allow_forwarded_requests = false;
  server_cert = getenv env (ascii "IPXE_CERT_FILE");
  server_key = getenv env (ascii "IPXE_KEY_FILE");
  storage_prefix_url = getenv env (ascii "STORAGE_PREFIX_URL");
}

-- fmt.Sprintf("%s-dot-%s.appspot.com", service, projectID)
abbrev appspot : Str → Str → Str
appspot service project = service ++ (ascii "-dot-" ++ (project ++ ascii ".appspot.com"))

unfoldable pub init : Dict Str → Settings → Settings
init env s =
    let service = getenv env (ascii "GAE_SERVICE") in
    let port = getenv env (ascii "PORT") in
    record s {
      public_hostname =
          if not (service == []) && not (s.project_id == []) && (s.public_hostname == [])
          then appspot service s.project_id
          else s.public_hostname;
      bind_port = if not (port == []) then port else s.bind_port;
      allow_forwarded_requests =
          if getenv env (ascii "ALLOW_FORWARDED_REQUESTS") == ascii "true"
          then true
          else s.allow_forwarded_requests;
    }
