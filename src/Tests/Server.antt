-- ===== src/Tests/Server.antt =====
-- Requests to a server with one host.
use epoxy.Base.{
  Str, ascii, ◌==◌, eq_iff, ◌≡◌, refl, ◌↔◌, ◌⊎◌, ◌≤◌, inl, arith, Bool, true, false, some, none,
  Option, List, [], ◌∷◌, Outcome, ok, err, length, if◌then◌else◌,
}
use epoxy.Base.Dict.{lookup}
use epoxy.Base.Exec.{◌>>=◌}
use epoxy.Base.Exec.Ensures.{Ends}
use epoxy.Go.Fmt.{fprintf}
use epoxy.Storage.Host.{Host, stage1_ipxe}
use epoxy.Template.Scripts.{format_stage1_ipxe_script, create_stage1_action}
use epoxy.Handler.Server.{
  Request, Reply, http_error, content, no_content, proxied, hostname, session_id, try, first_value,
  var,
}
use epoxy.Handler.Access.{first, forwarded_ips, extract_ip, request_is_from_host}
use epoxy.Handler.Access.Laws.{request_is_from_host_iff}
use epoxy.Handler.Boot.{
  text_plain, application_json, load_host, check_session, reported, generate_stage1_ipxe,
  generate_stage1_json, generate_json_config, receive_report,
}
use epoxy.Handler.Proxy.{handle_extension, handle_storage_proxy}
use epoxy.Handler.Outcomes.{IsBooted, IsConfigured, IsReported, Disturbed}
use epoxy.Handler.Forwarding.{IsForwarded, IsProxied}
use epoxy.Handler.SessionChecks.{with_session, generate_json_config-session, IsStillOpen}
use epoxy.Handler.Answers.{
  receive_report_outcome, generate_stage1_ipxe_outcome, generate_stage1_json_outcome,
  generate_json_config_outcome, handle_extension_outcome, handle_storage_proxy_outcome,
  report_session_survives,
}
use epoxy.Handler.Routes.{serve_all}
use epoxy.Handler.Routes as Routes
use epoxy.Handler.Routes.Router.{Mux, handle, dispatch, new_router, handle-get}
use epoxy.Handler.Routes.Setup.{IsKeyed, Evolves, serve_all_setup}
use epoxy.Tests.Backend.{
  report_req, stage1_req, stage2_req, extension_req, storage_req, stored, storage-IsStore,
  runtime-IsRuntime, net, json, host, hosts, server, env, context,
}

runs : Unit {0}
unfolding generate_stage1_ipxe generate_stage1_json generate_json_config receive_report load_host
    check_session reported handle_extension handle_storage_proxy request_is_from_host forwarded_ips
    extract_ip hostname session_id try ◌>>=◌ lookup ascii ◌==◌
runs = tt

is_answer : {A B : Type 0} → Outcome B A → Bool
is_answer (ok a) = true
is_answer (err e) = false

hosts-IsKeyed : IsKeyed (stored hosts)
unfolding lookup
hosts-IsKeyed j h e = ground (arith, eq_iff host.name j)

receive_report_outcome_example :
    Ends
      (IsReported context stored storage-IsStore runtime-IsRuntime (stored hosts) report_req)
      (Disturbed context stored storage-IsStore runtime-IsRuntime (stored hosts) report_req)
      (receive_report context report_req server).0
      (receive_report context report_req server).1
receive_report_outcome_example =
    receive_report_outcome context stored storage-IsStore runtime-IsRuntime report_req server

generate_stage1_ipxe_outcome_example :
    Ends
      (IsBooted context stored storage-IsStore runtime-IsRuntime
        (stored hosts)
        (λ h. content text_plain (fprintf (format_stage1_ipxe_script h env.server_addr)))
        stage1_req)
      (Disturbed context stored storage-IsStore runtime-IsRuntime (stored hosts) stage1_req)
      (generate_stage1_ipxe context stage1_req server).0
      (generate_stage1_ipxe context stage1_req server).1
generate_stage1_ipxe_outcome_example =
    generate_stage1_ipxe_outcome context stored storage-IsStore runtime-IsRuntime stage1_req server

generate_stage1_json_outcome_example :
    Ends
      (IsBooted context stored storage-IsStore runtime-IsRuntime
        (stored hosts)
        (λ h.
          content application_json
            (fprintf (json.config_string (create_stage1_action h env.server_addr))))
        stage1_req)
      (Disturbed context stored storage-IsStore runtime-IsRuntime (stored hosts) stage1_req)
      (generate_stage1_json context stage1_req server).0
      (generate_stage1_json context stage1_req server).1
generate_stage1_json_outcome_example =
    generate_stage1_json_outcome context stored storage-IsStore runtime-IsRuntime stage1_req server

generate_json_config_outcome_example :
    Ends
      (IsConfigured context stored storage-IsStore runtime-IsRuntime (stored hosts) stage2_req)
      (Disturbed context stored storage-IsStore runtime-IsRuntime (stored hosts) stage2_req)
      (generate_json_config context stage2_req server).0
      (generate_json_config context stage2_req server).1
generate_json_config_outcome_example =
    generate_json_config_outcome context stored storage-IsStore runtime-IsRuntime stage2_req server

handle_extension_outcome_example :
    Ends
      (IsForwarded context stored storage-IsStore runtime-IsRuntime (stored hosts) extension_req)
      (Disturbed context stored storage-IsStore runtime-IsRuntime (stored hosts) extension_req)
      (handle_extension context extension_req server).0
      (handle_extension context extension_req server).1
handle_extension_outcome_example =
    handle_extension_outcome context stored storage-IsStore runtime-IsRuntime extension_req server

handle_storage_proxy_outcome_example :
    Ends
      (IsProxied context stored storage-IsStore runtime-IsRuntime (stored hosts) storage_req)
      (Disturbed context stored storage-IsStore runtime-IsRuntime (stored hosts) storage_req)
      (handle_storage_proxy context storage_req server).0
      (handle_storage_proxy context storage_req server).1
handle_storage_proxy_outcome_example =
    handle_storage_proxy_outcome context stored storage-IsStore runtime-IsRuntime storage_req server

report_session_survives_example :
    Ends
      (λ _.
        IsStillOpen context stored storage-IsStore runtime-IsRuntime
          (stored hosts)
          hosts-IsKeyed
          report_req)
      (Disturbed context stored storage-IsStore runtime-IsRuntime (stored hosts) report_req)
      (receive_report context report_req server).0
      (receive_report context report_req server).1
report_session_survives_example =
    report_session_survives context stored storage-IsStore runtime-IsRuntime report_req server
      hosts-IsKeyed

serve_all_setup_example :
    IsKeyed (
      stored
        (serve_all context
          ((Routes.stage1_ipxe, stage1_req) ∷ (Routes.report, report_req) ∷ [])
          server).world)
    × ((j : Str)
        → Evolves (stored hosts j) (
            stored
              (serve_all context
                ((Routes.stage1_ipxe, stage1_req) ∷ (Routes.report, report_req) ∷ [])
                server).world
              j))
serve_all_setup_example =
    serve_all_setup context stored storage-IsStore runtime-IsRuntime
      ((Routes.stage1_ipxe, stage1_req) ∷ (Routes.report, report_req) ∷ []) server hosts-IsKeyed

abbrev storage_with_path : Request
storage_with_path = record storage_req { vars = (ascii "path", ascii "stage3.gz") ∷ [] }

-- A router that knows one path.
abbrev mux : Mux
mux = record {
  vars = λ pattern path.
      if pattern == ascii "/v1/storage/{path:.*}"
      then some ((ascii "path", ascii "stage3.gz") ∷ [])
      else none;
  refusal = λ req. http_error (ascii "404 page not found") 404;
}

handle-get_example : (handle mux context storage_req server).1 ≡ server
handle-get_example = handle-get mux context storage_req server refl

handle_tests :
    ((handle mux context storage_req server).0
      ≡ (handle_storage_proxy context storage_with_path server).0)
    × ((handle mux context stage1_req server).0 ≡ ok (http_error (ascii "404 page not found") 404))
unfolding handle dispatch new_router Routes.serve ascii ◌==◌
handle_tests = (refl, refl)

request_is_from_host_iff_example : (request_is_from_host net env report_req host ≡ ok tt) ↔ (
    ((env.allow_forwarded_requests ≡ true)
      × (length (forwarded_ips report_req) ≤ 2)
      × (first (forwarded_ips report_req) ≡ host.ipv4_addr))
    ⊎ ((env.allow_forwarded_requests ≡ false)
        × (extract_ip net report_req.remote_addr ≡ ok host.ipv4_addr)))
request_is_from_host_iff_example = request_is_from_host_iff net env report_req host

generate_json_config-session_example :
    generate_json_config context (with_session (ascii "stage2") (ascii "12345") stage2_req) server
    ≡ generate_json_config context (with_session (ascii "stage2") [] stage2_req) server
unfolding ascii
generate_json_config-session_example =
    generate_json_config-session context (ascii "stage2") (ascii "12345") [] stage2_req server
      (ground arith)

-- The requests above are answered.
answered_tests :
    (is_answer (generate_stage1_ipxe context stage1_req server).0 ≡ true)
    × (is_answer (generate_stage1_json context stage1_req server).0 ≡ true)
    × (is_answer (generate_json_config context stage2_req server).0 ≡ true)
    × (is_answer (receive_report context report_req server).0 ≡ true)
    × (is_answer (handle_extension context extension_req server).0 ≡ true)
    × (is_answer (handle_storage_proxy context storage_req server).0 ≡ true)
    × (is_answer (handle_extension context report_req server).0 ≡ false)
    × (is_answer (receive_report context extension_req server).0 ≡ false)
unfolding runs is_answer epoxy.Storage.Host.generate_session_ids
    epoxy.Storage.Host.generate_session_id epoxy.Handler.Server.count_stage1 epoxy.Base.Dict.insert
    epoxy.Handler.Proxy.operation epoxy.Handler.Proxy.find_extension
    epoxy.Handler.Proxy.call_extension
answered_tests = (refl, refl, refl, refl, refl, refl, refl, refl)
