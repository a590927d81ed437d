-- ===== src/Handler/SessionChecks.antt =====
-- Where session IDs are checked, and where they are not.
use epoxy.Base.{[], ◌∷◌, ◌++◌, Str, ascii, ◌==◌, eq_iff, ◌≡◌, sym, ap, ◌∙◌, Option, some, arith}
use epoxy.Base.Dict.{insert, lookup-insert, or_empty}
use epoxy.Base.Exec.Ensures.{Ensures, Ensures-weaken}
use epoxy.Go.Strings.{path_base}
use epoxy.Go.Strings.Paths.{IsPart, path_base-part}
use epoxy.Storage.Host.{Host, SessionIds, Time}
use epoxy.Storage.Sessions.{IsRuntime}
use epoxy.Handler.Server.{Request, Reply, Server, Context, hostname, session_id, first_value}
use epoxy.Handler.Access.{request_is_from_host, forwarded_ips}
use epoxy.Handler.Boot.{load_host, reported, receive_report, generate_json_config}
use epoxy.Handler.Store.{IsStore}
use epoxy.Handler.Steps.{View}
use epoxy.Handler.Outcomes.{Disturbed, IsReported, receive_report-Ensures}
use epoxy.Handler.Routes.Setup.{IsKeyed}

-- /v1/boot/{hostname}/{sessionID}/{stage}
abbrev pub boot_path : Str → Str → Str → Str
unfolding ascii
boot_path name id stage = (ascii "/v1/boot/" ++ (name ++ (b'/' ∷ id))) ++ (b'/' ∷ stage)

-- The request for a stage with a session ID, in its path and in what the router finds in the path.
abbrev pub with_session : Str → Str → Request → Request
with_session stage id req = record req {
  vars = insert (ascii "sessionID") id req.vars;
  url = record req.url { path = boot_path (hostname req) id stage };
}

hostname-with_session :
    (stage id : Str) (req : Request) → hostname (with_session stage id req) ≡ hostname req
unfolding hostname ascii ◌==◌
hostname-with_session stage id req =
    ap or_empty (lookup-insert (ascii "sessionID") (ascii "hostname") id req.vars)

path_base-boot_path :
    (name id stage : Str) → IsPart stage → path_base (boot_path name id stage) ≡ path_base stage
unfolding ascii
path_base-boot_path name id stage part =
    path_base-part (ascii "/v1/boot/" ++ (name ++ (b'/' ∷ id))) stage part

module _ {W : Type 0} (c : Context W) where
  answered :
      (stage id : Str) (req : Request) (s : Server W)
      → IsPart stage
      → generate_json_config c (with_session stage id req) s
        ≡ generate_json_config c (with_session stage [] req) s
  unfolding generate_json_config load_host request_is_from_host forwarded_ips
  answered stage id req s part = rw (
    hostname-with_session stage id req,
    hostname-with_session stage [] req,
    path_base-boot_path (hostname req) id stage part,
    path_base-boot_path (hostname req) [] stage part,
  )

  -- The target of a stage gives the same answer to requests for that stage that differ in their
  -- session IDs alone, in the path and in what the router finds there, and leaves the server in the
  -- same state. The stage is a part of a path: it is not empty and has no slash.
  pub generate_json_config-session :
      (stage id other : Str) (req : Request) (s : Server W)
      → IsPart stage
      → generate_json_config c (with_session stage id req) s
        ≡ generate_json_config c (with_session stage other req) s
  generate_json_config-session stage id other req s part =
      answered stage id req s part ∙ sym (answered stage other req s part)

module _ {W : Type 0} (c : Context W) (stored : W → Str → Option Host)
    (laws : IsStore stored c.env.config c.runtime) (good : IsRuntime c.runtime)
    (v : Str → Option Host) (keyed : IsKeyed v) where
  -- The session ID with which a report was accepted is still that of the stored record.
  pub record IsStillOpen (req : Request) (s : Server W) : Type 0 where
    pub host : Host
    pub saved : stored s.world (hostname req) ≡ some host
    pub session : session_id req ≡ host.current_session_ids.report_id

  session-reported :
      (message : Str) (now : Time) (h : Host)
      → ((reported message now h).current_session_ids ≡ h.current_session_ids)
        × ((reported message now h).name ≡ h.name)
  unfolding reported
  session-reported message now h = ground arith

  still_open :
      (req : Request) (r : Reply) (s : Server W)
      → IsReported c stored laws good v req r s
      → IsStillOpen req s
  still_open req r s b =
      let message = first_value (ascii "message") req.post_form in
      let new = reported message b.now b.old in
      let (ids, name) = session-reported message b.now b.old in
      record {
        host = new;
        saved = ground (
          arith,
          b.saved (hostname req),
          keyed (hostname req) b.old b.authorised.loaded,
          eq_iff new.name (hostname req),
        );
        session = b.session ∙ ap (λ (x : SessionIds). x.report_id) (sym ids);
      }

  -- An accepted report does not invalidate its session ID: the stored record has it still.
  pub receive_report_keeps_session :
      (req : Request)
      → Ensures
          (View c stored laws good v)
          (receive_report c req)
          (λ _ s. IsStillOpen req s)
          (Disturbed c stored laws good v req)
  receive_report_keeps_session req =
      Ensures-weaken (receive_report-Ensures c stored laws good v req) (λ s h. h)
        (λ r s b. still_open req r s b) (λ r s t. t)
