-- ===== src/Nextboot/Retry/Laws.antt =====
-- cmd/epoxy_client/main.go: the client over its rounds.
use epoxy.Base.{
  ℕ, zero, suc, Str, ascii, Bool, true, false, ◌≡◌, refl, List, ◌++◌, Error, Outcome, ok,
  if◌then◌else◌,
}
use epoxy.Base.Dict.{Dict}
use epoxy.Base.Exec.{Keeps, Keeps-pure, Keeps-lift, Keeps-bind, Keeps-if}
use epoxy.Storage.Host.{Time}
use epoxy.Nextboot.Client.{Machine, Client}
use epoxy.Nextboot.Kept.{HasMaps, DecodesMaps, IsKept, Kept}
use epoxy.Nextboot.Load.Keeps.{post_download-Keeps}
use epoxy.Nextboot.Environment.Restore.{IsEnviron}
use epoxy.Nextboot.Run.{run, report}
use epoxy.Nextboot.Run.Keeps.{run-Keeps}
use epoxy.Nextboot.Retry.{
  Flags, Ending, succeeded, Verdict, success, failure, panic, unended, verdict, Clock, send_report,
  goes_on, after_run, retry_rounds,
}

module _ {W : Type 0} (m : Machine W) (env kargs : Dict Str) where
  report-Keeps :
      (key : Str) (values : Dict (List Str)) (dryrun : Bool)
      → Keeps (Kept env kargs) (report m key values dryrun)
  unfolding report
  report-Keeps key values dryrun =
      Keeps-bind _ _ (record { at = λ s h. h })
        (λ config. Keeps-bind _ _ (Keeps-lift _) (λ url.
          Keeps-if dryrun _ _ (λ _. Keeps-pure _)
            (λ _. Keeps-bind _ _ (post_download-Keeps m env kargs _ _) (λ _. Keeps-pure _))))

  module _ (clock : Clock W) (flags : Flags) where
    send_report-Kept :
        (result : Str) (s : Client W)
        → Kept env kargs s
        → Kept env kargs (send_report m clock flags result s)
    unfolding send_report
    send_report-Kept result s h = (report-Keeps flags.report _ flags.dryrun).at s h

    Kept-if :
        (b : Bool) (x y : Bool × Client W)
        → Kept env kargs x.1
        → Kept env kargs y.1
        → Kept env kargs (if b then x else y).1
    Kept-if true x y hx hy = hx
    Kept-if false x y hx hy = hy

    goes_on-Kept :
        (deadline : Time) (s : Client W)
        → Kept env kargs s
        → Kept env kargs (goes_on m clock flags deadline s).1
    unfolding goes_on
    goes_on-Kept deadline s h = Kept-if flags.retry _ _ h h

    Kept-end :
        (b : Bool) (x y : Ending × Client W)
        → Kept env kargs x.1
        → Kept env kargs y.1
        → Kept env kargs (if b then x else y).1
    Kept-end true x y hx hy = hx
    Kept-end false x y hx hy = hy

    after_run-Kept :
        (deadline : Time) (v : Verdict) (s : Client W) (next : Client W → Ending × Client W)
        → Kept env kargs s
        → ((s' : Client W) → Kept env kargs s' → Kept env kargs (next s').1)
        → Kept env kargs (after_run m clock flags deadline v s next).1
    after_run-Kept deadline success s next h k = send_report-Kept (ascii "success") s h
    after_run-Kept deadline (failure e) s next h k =
        let s₁ = send_report m clock flags (ascii "error: " ++ clock.error_text e) s in
        let (more, s') = goes_on m clock flags deadline s₁ in
        let kept =
          goes_on-Kept deadline s₁ (send_report-Kept (ascii "error: " ++ clock.error_text e) s h) in
        Kept-end more _ _ (k _ kept) kept
    after_run-Kept deadline panic s next h k = h
    after_run-Kept deadline unended s next h k = h

    retry_rounds-Kept :
        (fuel rounds : ℕ) (deadline : Time) (s : Client W)
        → DecodesMaps m
        → IsEnviron env
        → Kept env kargs s
        → Kept env kargs (retry_rounds m clock flags fuel rounds deadline s).1
    unfolding retry_rounds
    retry_rounds-Kept fuel zero deadline s dm environ h = h
    retry_rounds-Kept fuel (suc rounds) deadline s dm environ h =
        let (r, s') = run m fuel flags.action flags.add_kargs flags.dryrun s in
        after_run-Kept deadline (verdict r) s' _
          ((run-Keeps m env kargs environ fuel flags.action flags.add_kargs flags.dryrun dm).at s h)
          (λ s'' h'. retry_rounds-Kept fuel rounds deadline s'' dm environ h')

module _ {W : Type 0} (m : Machine W) (clock : Clock W) (flags : Flags) where
  -- The client over any number of rounds, with its reports and however it ends: each environment
  -- variable has the value it had at the start, and each kernel argument of the start still has its
  -- value. The environment is one that os.Setenv can have made, and in no configuration do two
  -- entries of the environment have the same key.
  pub client_keeps_env_and_kargs :
      (fuel rounds : ℕ) (deadline : Time) (s : Client W)
      → DecodesMaps m
      → IsEnviron s.env
      → HasMaps s.config.v1
      → IsKept s.env s.config.kargs
          (retry_rounds m clock flags fuel rounds deadline s).1.config
          (retry_rounds m clock flags fuel rounds deadline s).1.env
  client_keeps_env_and_kargs fuel rounds deadline s dm environ maps =
      retry_rounds-Kept m s.env s.config.kargs clock flags fuel rounds deadline s dm environ
        (λ k. refl, λ k v l. l, maps)

  one_success :
      (r : Outcome Error Bool) (deadline : Time) (s : Client W)
      (next : Client W → Ending × Client W)
      → r ≡ ok true
      → after_run m clock flags deadline (verdict r) s next
        ≡ (succeeded, send_report m clock flags (ascii "success") s)
  one_success r deadline s next e = rw e refl

  -- The client stops after its first round when the run succeeds, and then has reported "success"
  -- and does not reboot.
  retry_rounds_succeeds :
      (fuel rounds : ℕ) (deadline : Time) (s : Client W)
      → (run m fuel flags.action flags.add_kargs flags.dryrun s).0 ≡ ok true
      → retry_rounds m clock flags fuel (suc rounds) deadline s ≡ (
        succeeded,
        send_report m clock flags
            (ascii "success")
            (run m fuel flags.action flags.add_kargs flags.dryrun s).1,
      )
  unfolding retry_rounds
  retry_rounds_succeeds fuel rounds deadline s e =
      one_success (run m fuel flags.action flags.add_kargs flags.dryrun s).0 deadline
        (run m fuel flags.action flags.add_kargs flags.dryrun s).1 _ e
