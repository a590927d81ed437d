-- ===== src/Handler/Answers.antt =====
-- handler/handler.go: what holds after each request, for a server over a storage with the laws of
-- `IsStore` and a source of random bytes. A request is answered with its reply, or ends in an error,
-- a panic or the end of the process; both cases are stated.
use epoxy.Base.{Str, refl, Option}
use epoxy.Base.Exec.Ensures.{Ends}
use epoxy.Go.Fmt.{fprintf}
use epoxy.Storage.Host.{Host}
use epoxy.Storage.Sessions.{IsRuntime}
use epoxy.Template.Scripts.{format_stage1_ipxe_script, create_stage1_action}
use epoxy.Handler.Server.{Request, content, Server, Context}
use epoxy.Handler.Boot.{
  text_plain, application_json, generate_stage1_ipxe, generate_stage1_json, generate_json_config,
  receive_report,
}
use epoxy.Handler.Proxy.{handle_extension, handle_storage_proxy}
use epoxy.Handler.Store.{IsStore}
use epoxy.Handler.Outcomes.{
  IsBooted, IsConfigured, IsReported, Disturbed, generate_stage1_ipxe-Ensures,
  generate_stage1_json-Ensures, generate_json_config-Ensures, receive_report-Ensures,
}
use epoxy.Handler.Forwarding.{
  IsForwarded, IsProxied, handle_extension-Ensures, handle_storage_proxy-Ensures,
}
use epoxy.Handler.Routes.Setup.{IsKeyed}
use epoxy.Handler.SessionChecks.{IsStillOpen, receive_report_keeps_session}

module _ {W : Type 0} (c : Context W) (stored : W → Str → Option Host)
    (laws : IsStore stored c.env.config c.runtime) (good : IsRuntime c.runtime) (req : Request)
    (s : Server W) where
  -- A report that is accepted came from the address of the stored host that it names, with that
  -- host's report ID; the stored record is then the one with the report's time, and for the
  -- message "success" also the time of success and the update disabled; no other record has
  -- changed, and the answer has no content. Any other report leaves every other record as it was,
  -- and of its caller's record at least the setup. The storage has the laws `IsStore`, and the
  -- source of random bytes those of `IsRuntime`.
  pub receive_report_outcome :
      Ends
        (IsReported c stored laws good (stored s.world) req)
        (Disturbed c stored laws good (stored s.world) req)
        (receive_report c req s).0
        (receive_report c req s).1
  receive_report_outcome =
      (receive_report-Ensures c stored laws good (stored s.world) req).at s refl

  -- An answered request for the iPXE script came from the address of the stored host that it
  -- names; that host's record is stored with four well-formed new session IDs and the same setup,
  -- no other record has changed, and the script is made from the record that is stored. Any other
  -- request for it leaves every other record as it was, and of its caller's at least the setup.
  -- The storage has the laws `IsStore`, and the source of random bytes those of `IsRuntime`.
  pub generate_stage1_ipxe_outcome :
      Ends
        (IsBooted c stored laws good
          (stored s.world)
          (λ h. content text_plain (fprintf (format_stage1_ipxe_script h c.env.server_addr)))
          req)
        (Disturbed c stored laws good (stored s.world) req)
        (generate_stage1_ipxe c req s).0
        (generate_stage1_ipxe c req s).1
  generate_stage1_ipxe_outcome =
      (generate_stage1_ipxe-Ensures c stored laws good (stored s.world) req).at s refl

  -- An answered request for the JSON action came from the address of the stored host that it
  -- names; that host's record is stored with four well-formed new session IDs and the same setup,
  -- no other record has changed, and the action is made from the record that is stored. Any other
  -- request for it leaves every other record as it was, and of its caller's at least the setup.
  -- The storage has the laws `IsStore`, and the source of random bytes those of `IsRuntime`.
  pub generate_stage1_json_outcome :
      Ends
        (IsBooted c stored laws good
          (stored s.world)
          (λ h.
            content application_json
              (fprintf (c.json.config_string (create_stage1_action h c.env.server_addr))))
          req)
        (Disturbed c stored laws good (stored s.world) req)
        (generate_stage1_json c req s).0
        (generate_stage1_json c req s).1
  generate_stage1_json_outcome =
      (generate_stage1_json-Ensures c stored laws good (stored s.world) req).at s refl

  -- An answered stage2 or stage3 request came from the address of the stored host that it names,
  -- no record has changed, and the answer is the configuration for the last element of the request's
  -- path: the URL of that stage in the host's current sequence, with its images version put in.
  -- Without an answer no record but the caller's may have changed, and of that not the setup. The
  -- storage has the laws `IsStore`, and the source of random bytes those of `IsRuntime`.
  pub generate_json_config_outcome :
      Ends
        (IsConfigured c stored laws good (stored s.world) req)
        (Disturbed c stored laws good (stored s.world) req)
        (generate_json_config c req s).0
        (generate_json_config c req s).1
  generate_json_config_outcome =
      (generate_json_config-Ensures c stored laws good (stored s.world) req).at s refl

  -- A forwarded extension request came from the address of the stored host that it names, with
  -- that host's extension ID, for a registered operation; it goes to the registered URL with the
  -- host's record as its body, and no record has changed. For any other request no record but the
  -- caller's may have changed, and of that not the setup. The storage has the laws `IsStore`, and
  -- the source of random bytes those of `IsRuntime`.
  pub handle_extension_outcome :
      Ends
        (IsForwarded c stored laws good (stored s.world) req)
        (Disturbed c stored laws good (stored s.world) req)
        (handle_extension c req s).0
        (handle_extension c req s).1
  handle_extension_outcome =
      (handle_extension-Ensures c stored laws good (stored s.world) req).at s refl

  -- A request that is passed on to storage is a GET, goes to the scheme and host of the configured
  -- prefix, to the requested path under the prefix's path and without a query, and no record has
  -- changed. For any other request no record but the caller's may have changed, and of that not
  -- the setup. The storage has the laws `IsStore`, and the source of random bytes those of
  -- `IsRuntime`.
  pub handle_storage_proxy_outcome :
      Ends
        (IsProxied c stored laws good (stored s.world) req)
        (Disturbed c stored laws good (stored s.world) req)
        (handle_storage_proxy c req s).0
        (handle_storage_proxy c req s).1
  handle_storage_proxy_outcome =
      (handle_storage_proxy-Ensures c stored laws good (stored s.world) req).at s refl

  -- Where every record is stored under its own name, an accepted report does not invalidate its
  -- session ID: the stored record of its sender has it still. Any other report leaves every other
  -- record as it was, and of its caller's at least the setup. The storage has the laws `IsStore`,
  -- and the source of random bytes those of `IsRuntime`.
  pub report_session_survives :
      (keyed : IsKeyed (stored s.world))
      → Ends
          (λ _ s'. IsStillOpen c stored laws good (stored s.world) keyed req s')
          (Disturbed c stored laws good (stored s.world) req)
          (receive_report c req s).0
          (receive_report c req s).1
  report_session_survives keyed =
      (receive_report_keeps_session c stored laws good (stored s.world) keyed req).at s refl
