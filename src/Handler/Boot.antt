-- ===== src/Handler/Boot.antt =====
-- handler/handler.go: the targets of the boot stages, and the report that ends a boot.
use epoxy.Base.{Str, ascii, ◌==◌, false, not, if◌then◌else◌}
use epoxy.Base.Exec.{Exec, pure, stop, lift, ◌>>=◌, ◌>>◌}
use epoxy.Go.Fmt.{fprintf}
use epoxy.Go.Strings.{path_base}
use epoxy.Storage.Host.{Host, Time, generate_session_ids}
use epoxy.Storage.Information.{add_information}
use epoxy.Template.Scripts.{format_stage1_ipxe_script, create_stage1_action, format_json_config}
use epoxy.Handler.Server.{
  Request, Reply, http_error, content, no_content, panicked, Server, Context, Handler, http_failure,
  or_reply, try, count_stage1, hostname, session_id, first_value,
}
use epoxy.Handler.Access.{request_is_from_host}

abbrev pub text_plain : Str
unfolding ascii
text_plain = ascii "text/plain; charset=us-ascii"

abbrev pub application_json : Str
unfolding ascii
application_json = ascii "application/json; charset=utf-8"

-- The record after a report with the given message at the given time.
unfoldable pub reported : Str → Time → Host → Host
reported message now host =
    if message == ascii "success"
    then record host { last_report = now; last_success = now; update_enabled = false }
    else record host { last_report = now }

-- `if sessionID != id { http.Error(…, StatusForbidden); return }`
unfoldable pub check_session : {W : Type 0} → Request → Str → Exec (Server W) Reply (Unit {0})
check_session req id =
    if not (session_id req == id)
    then stop (http_error (ascii "Given session ID does not match host record") 403)
    else pure tt

module _ {W : Type 0} (c : Context W) where
  -- The steps with which every handler begins: load the record, check the caller.
  unfoldable pub load_host : Request → Exec (Server W) Reply Host
  load_host req = do
    host ← try (http_failure 404) (c.env.config.load (hostname req))
    lift (or_reply (http_failure 403) (request_is_from_host c.net c.env req host))
    pure host

  unfoldable pub generate_stage1_ipxe : Request → Handler W
  generate_stage1_ipxe req = do
    loaded ← load_host req
    host ← try panicked (generate_session_ids c.runtime (add_information req.post_form loaded))
    count_stage1 host.name
    try (http_failure 500) (c.env.config.save host)
    pure (content text_plain (fprintf (format_stage1_ipxe_script host c.env.server_addr)))

  unfoldable pub generate_stage1_json : Request → Handler W
  generate_stage1_json req = do
    loaded ← load_host req
    host ← try panicked (generate_session_ids c.runtime loaded)
    count_stage1 host.name
    try (http_failure 500) (c.env.config.save host)
    pure (
        content application_json
          (fprintf (c.json.config_string (create_stage1_action host c.env.server_addr))))

  unfoldable pub generate_json_config : Request → Handler W
  generate_json_config req = do
    host ← load_host req
    let stage = path_base req.url.path
    pure (content application_json (fprintf (c.json.config_string (format_json_config host stage))))

  unfoldable pub receive_report : Request → Handler W
  receive_report req = do
    host ← load_host req
    check_session req host.current_session_ids.report_id
    now ← try panicked c.runtime.time_now
    try (http_failure 500)
        (c.env.config.save (reported (first_value (ascii "message") req.post_form) now host))
    pure no_content
