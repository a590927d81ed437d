-- ===== src/Handler/Outcomes.antt =====
-- What each target of the boot stages establishes when it answers, and what it may have changed
-- whatever it answers.
use epoxy.Base.{Str, ascii, ◌==◌, eq_iff, ◌≡◌, refl, ◌∙◌, ap, Option, not, arith}
use epoxy.Base.Exec.{pure, ◌>>=◌, ◌>>◌}
use epoxy.Base.Exec.Ensures.{
  Ensures, Ensures-bind, Ensures-pure, Ensures-stop, Ensures-if, Ensures-weaken, Ensures-assume,
  Ensures-Keeps,
}
use epoxy.Go.Fmt.{fprintf}
use epoxy.Go.Strings.{path_base}
use epoxy.Storage.Host.{Host, Time, generate_session_ids}
use epoxy.Storage.Sessions.{IsRuntime, AreSessionIds}
use epoxy.Template.Scripts.{format_stage1_ipxe_script, create_stage1_action}
use epoxy.Handler.Server.{
  Request, Reply, http_error, content, no_content, panicked, Server, Context, http_failure, try,
  count_stage1, session_id, first_value,
}
use epoxy.Handler.Boot.{
  text_plain, application_json, load_host, generate_stage1_ipxe, generate_stage1_json,
  generate_json_config, reported, check_session, receive_report,
}
use epoxy.Handler.Recorded.{IsRecorded, reported-IsRecorded, stage_config, format_json_config_lem}
use epoxy.Handler.Store.{IsStore, SameSetup}
use epoxy.Handler.Renewal.{ids-Ensures}
use epoxy.Handler.Setup.{
  SameSetup-add_information, SameSetup-trans, SameSetup-refl, SameSetup-reported,
}
use epoxy.Handler.Steps.{
  View, IsAuthorised, Replaced, Touched, View-Touched, load_host-Ensures, try-Ensures, save-Ensures,
}

module _ {W : Type 0} (c : Context W) (stored : W → Str → Option Host)
    (laws : IsStore stored c.env.config c.runtime) (good : IsRuntime c.runtime)
    (v : Str → Option Host) where
  abbrev pub Seen : Server W → Type 0
  Seen = View c stored laws good v

  abbrev pub Authorised : Request → Host → Type 0
  Authorised = IsAuthorised c stored laws good v

  abbrev pub Disturbed : Request → Reply → Server W → Type 0
  Disturbed req _ = Touched c stored laws good v req

  -- A stage1 request that is answered: the caller's record is stored with new session IDs, and the
  -- script is made from that record.
  pub record IsBooted (script : Host → Reply) (req : Request) (r : Reply) (s : Server W)
      : Type 0 where
    pub old : Host
    pub new : Host
    pub authorised : Authorised req old
    pub setup : SameSetup old new
    pub ids : AreSessionIds new.current_session_ids
    pub saved : Replaced c stored laws good v new s
    pub reply : r ≡ script new

  pub load_step :
      (req : Request)
      → Ensures Seen (load_host c req) (λ h s. Authorised req h × Seen s) (Disturbed req)
  load_step req =
      Ensures-weaken (load_host-Ensures c stored laws good v req) (λ s h. h) (λ h s q. q)
        λ r s. View-Touched c stored laws good v req s

  counted :
      (req : Request) (name : Str) → Ensures Seen (count_stage1 name) (λ _. Seen) (Disturbed req)
  unfolding count_stage1
  counted req name = record { at = λ s h. h }

  -- The common part of the two stage1 handlers, from the loaded record on.
  stage1_tail :
      (req : Request) (script : Host → Reply) (old start : Host)
      → SameSetup old start
      → Authorised req old
      → Ensures Seen
          (do
            host ← try panicked (generate_session_ids c.runtime start)
            count_stage1 host.name
            try (http_failure 500) (c.env.config.save host)
            pure (script host))
          (IsBooted script req)
          (Disturbed req)
  stage1_tail req script old start setup a =
      Ensures-bind (try panicked (generate_session_ids c.runtime start)) _
        (Ensures-weaken (try-Ensures panicked _ (ids-Ensures c stored laws good v start)) (λ s h. h)
          (λ h s q. q) (λ r s. View-Touched c stored laws good v req s))
        λ new. Ensures-assume _ λ (kept, fresh).
          let whole = SameSetup-trans setup kept in
          Ensures-bind (count_stage1 new.name) _ (counted req new.name) λ _.
            Ensures-bind (try (http_failure 500) (c.env.config.save new)) _
              (Ensures-weaken (save-Ensures c stored laws good v (http_failure 500) req old new)
                (λ s h. ((a, whole), h)) (λ _ s q. q) (λ _ s q. q))
              λ _. Ensures-pure (script new) λ s saved. record {
                old = old;
                new = new;
                authorised = a;
                setup = whole;
                ids = fresh;
                saved = saved;
                reply = refl;
              }

  -- An answered iPXE request has stored new session IDs, and its script has their URLs. Whatever
  -- the answer, only the caller's record may have changed, and not its setup.
  pub generate_stage1_ipxe-Ensures :
      (req : Request)
      → Ensures Seen
          (generate_stage1_ipxe c req)
          (IsBooted
            (λ h. content text_plain (fprintf (format_stage1_ipxe_script h c.env.server_addr)))
            req)
          (Disturbed req)
  unfolding generate_stage1_ipxe
  generate_stage1_ipxe-Ensures req = Ensures-bind (load_host c req) _ (load_step req) λ old.
      Ensures-assume _ λ a. stage1_tail req _ old _ (SameSetup-add_information req.post_form old) a

  -- The same for the JSON target, which collects no information.
  pub generate_stage1_json-Ensures :
      (req : Request)
      → Ensures Seen
          (generate_stage1_json c req)
          (IsBooted
            (λ h.
              content application_json
                (fprintf (c.json.config_string (create_stage1_action h c.env.server_addr))))
            req)
          (Disturbed req)
  unfolding generate_stage1_json
  generate_stage1_json-Ensures req =
      Ensures-bind (load_host c req) _ (load_step req)
        λ old. Ensures-assume _ λ a. stage1_tail req _ old old (SameSetup-refl old) a

  -- A stage2 or stage3 request that is answered.
  pub record IsConfigured (req : Request) (r : Reply) (s : Server W) : Type 0 where
    pub host : Host
    pub authorised : Authorised req host
    pub unchanged : Seen s
    pub reply :
        r
        ≡ content application_json
            (fprintf (c.json.config_string (stage_config host (path_base req.url.path))))

  pub generate_json_config-Ensures :
      (req : Request) → Ensures Seen (generate_json_config c req) (IsConfigured req) (Disturbed req)
  unfolding generate_json_config
  generate_json_config-Ensures req = Ensures-bind (load_host c req) _ (load_step req) λ host.
      Ensures-assume _ λ a. Ensures-pure _ λ s view. record {
        host = host;
        authorised = a;
        unchanged = view;
        reply =
            ap (λ config. content application_json (fprintf (c.json.config_string config)))
              (format_json_config_lem host (path_base req.url.path));
      }

  -- A report that is accepted.
  pub record IsReported (req : Request) (r : Reply) (s : Server W) : Type 0 where
    pub old : Host
    pub now : Time
    pub authorised : Authorised req old
    pub session : session_id req ≡ old.current_session_ids.report_id
    pub saved :
        Replaced c stored laws good v
          (reported (first_value (ascii "message") req.post_form) now old)
          s
    pub recorded :
        IsRecorded
          (first_value (ascii "message") req.post_form)
          now
          old
          (reported (first_value (ascii "message") req.post_form) now old)
    pub reply : r ≡ no_content

  pub check_session-Ensures :
      (req : Request) (id : Str)
      → Ensures Seen (check_session req id) (λ _ s. (session_id req ≡ id) × Seen s) (Disturbed req)
  unfolding check_session
  check_session-Ensures req id =
      Ensures-if (not (session_id req == id)) _ _
        (λ _.
          Ensures-stop (http_error (ascii "Given session ID does not match host record") 403)
            λ s h. View-Touched c stored laws good v req s h)
        λ same. Ensures-pure tt λ s h. ((eq_iff (session_id req) id).0 (ground arith), h)

  time_step :
      (req : Request)
      → Ensures Seen (try panicked c.runtime.time_now) (λ _ s. Seen s) (Disturbed req)
  time_step req =
      Ensures-weaken
        (try-Ensures panicked c.runtime.time_now
          (Ensures-Keeps c.runtime.time_now (record { at = λ w h. laws.time_keeps w ∙ h })))
        (λ s h. h) (λ now s h. h) (λ r s h. View-Touched c stored laws good v req s h)

  pub receive_report-Ensures :
      (req : Request) → Ensures Seen (receive_report c req) (IsReported req) (Disturbed req)
  unfolding receive_report
  receive_report-Ensures req = Ensures-bind (load_host c req) _ (load_step req) λ old.
      Ensures-assume _ λ a.
        Ensures-bind (check_session req old.current_session_ids.report_id) _
          (check_session-Ensures req old.current_session_ids.report_id)
          λ _. Ensures-assume _ λ session.
            Ensures-bind (try panicked c.runtime.time_now) _ (time_step req) λ now.
              let new = reported (first_value (ascii "message") req.post_form) now old in
              Ensures-bind (try (http_failure 500) (c.env.config.save new)) _
                (Ensures-weaken (save-Ensures c stored laws good v (http_failure 500) req old new)
                  (λ s h. (
                    (a, SameSetup-reported (first_value (ascii "message") req.post_form) now old),
                    h,
                  ))
                  (λ _ s q. q) (λ _ s q. q))
                λ _. Ensures-pure no_content λ s saved. record {
                  old = old;
                  now = now;
                  authorised = a;
                  session = session;
                  saved = saved;
                  recorded =
                      reported-IsRecorded (first_value (ascii "message") req.post_form) now old;
                  reply = refl;
                }
