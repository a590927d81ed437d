-- ===== src/Nextboot/Retry/Ends.antt =====
-- cmd/epoxy_client/main.go: the loop ends, by its deadline.
use epoxy.Base.{
  ℕ, zero, suc, ◌+◌, ◌*◌, ◌≤◌, ◌<◌, leb, Str, ascii, Bool, true, false, ◌≡◌, ◌≢◌, refl, ◌++◌, ok,
  err, Error, Outcome, nil_dereference, action_url_not_found, file_url_not_found, unsupported_type,
  cannot_access_host, bad_status, external, command_failed, arith, if◌then◌else◌,
}
use epoxy.Base.Exec.{pure, ◌>>◌, bind-eq-ok}
use epoxy.Storage.Host.{Time}
use epoxy.Nextboot.Client.{Machine, Client}
use epoxy.Nextboot.World.{IsStable}
use epoxy.Nextboot.World.Runs.{run-Keeps, report-Keeps}
use epoxy.Nextboot.Run.{run}
use epoxy.Nextboot.Run.Chains.{run_ends}
use epoxy.Nextboot.Load.Chains.{IsAcyclic}
use epoxy.Nextboot.Retry.{
  Flags, Ending, succeeded, failed, panicked, chain_unended, rounds_over, Verdict, success, failure,
  panic, unended, verdict, Clock, Halt, send_report, goes_on, after_run, retry_rounds, WriteFile,
  must, no_cmdline, reboot_if, run_client, main,
}

abbrev pub minute : ℕ
minute = 60_000_000_000

-- Every world has a time, which no operation of the machine turns back; a reading of the clock lies
-- between the times before and after it, and a sleep lasts at least a minute.
pub record TimePasses {W : Type 0} (m : Machine W) (clock : Clock W) : Type 0 where
  pub at : W → Time
  pub stable : (t : Time) → IsStable (λ w. t ≤ at w) m
  pub read_after : (w : W) → at w ≤ (clock.now w).0
  pub read_before : (w : W) → (clock.now w).0 ≤ at (clock.now w).1
  pub slept : (w : W) → at w + minute ≤ at (clock.sleep w)

-- An end of the process, by itself or by log.Fatal. `chain_unended` and `rounds_over` are none.
abbrev pub IsEnd : Outcome Halt Ending → Type 0
IsEnd (err why) = Unit
IsEnd (ok succeeded) = Unit
IsEnd (ok failed) = Unit
IsEnd (ok panicked) = Unit
IsEnd (ok chain_unended) = ¬ Unit
IsEnd (ok rounds_over) = ¬ Unit

ends_otherwise : (r : Outcome Halt Ending) → r ≢ ok rounds_over → r ≢ ok chain_unended → IsEnd r
ends_otherwise (err why) over hanging = tt
ends_otherwise (ok succeeded) over hanging = tt
ends_otherwise (ok failed) over hanging = tt
ends_otherwise (ok panicked) over hanging = tt
ends_otherwise (ok chain_unended) over hanging = absurd (hanging refl)
ends_otherwise (ok rounds_over) over hanging = absurd (over refl)

verdict-unended : (r : Outcome Error Bool) → verdict r ≡ unended → r ≡ ok false
verdict-unended (ok true) e = cc
verdict-unended (ok false) e = refl
verdict-unended (err nil_dereference) e = cc
verdict-unended (err action_url_not_found) e = cc
verdict-unended (err file_url_not_found) e = cc
verdict-unended (err unsupported_type) e = cc
verdict-unended (err cannot_access_host) e = cc
verdict-unended (err (bad_status n)) e = cc
verdict-unended (err (external text)) e = cc
verdict-unended (err (command_failed args x)) e = cc

module _ {W : Type 0} (m : Machine W) (clock : Clock W) (flags : Flags) (bound : ℕ)
    (chains : IsAcyclic m bound) where
  after_run-unchained :
      (deadline : Time) (v : Verdict) (s : Client W) (next : Client W → Ending × Client W)
      → v ≢ unended
      → ((s' : Client W) → (next s').0 ≢ chain_unended)
      → (after_run m clock flags deadline v s next).0 ≢ chain_unended
  after_run-unchained deadline success s next known ends = λ e. cc e
  after_run-unchained deadline panic s next known ends = λ e. cc e
  after_run-unchained deadline unended s next known ends = λ e. known refl
  after_run-unchained deadline (failure x) s next known ends =
      let s₁ = send_report m clock flags (ascii "error: " ++ clock.error_text x) s in
      let (more, s') = goes_on m clock flags deadline s₁ in
      by_test more (next (record s' { world = clock.sleep s'.world })) (failed, s') (ends _)
        (λ e. cc e)
    where
      by_test :
          (b : Bool) (x y : Ending × Client W)
          → x.0 ≢ chain_unended
          → y.0 ≢ chain_unended
          → (if b then x else y).0 ≢ chain_unended
      by_test true x y hx hy = hx
      by_test false x y hx hy = hy

  retry_rounds-unchained :
      (rounds : ℕ) (deadline : Time) (s : Client W)
      → (retry_rounds m clock flags (suc bound) rounds deadline s).0 ≢ chain_unended
  unfolding retry_rounds
  retry_rounds-unchained zero deadline s = λ e. cc e
  retry_rounds-unchained (suc rounds) deadline s =
      after_run-unchained deadline _ _ _
        (λ e.
          run_ends m bound chains flags.action flags.add_kargs flags.dryrun s (verdict-unended _ e))
        (λ s'. retry_rounds-unchained rounds deadline s')

module _ {W : Type 0} (m : Machine W) (clock : Clock W) (flags : Flags)
    (time : TimePasses m clock) where
  send_report-time :
      (result : Str) (t : Time) (s : Client W)
      → t ≤ time.at s.world
      → t ≤ time.at (send_report m clock flags result s).world
  unfolding send_report
  send_report-time result t s h =
      (report-Keeps m (time.stable t) flags.report _ flags.dryrun).at s h

  goes_on-time :
      (deadline t : Time) (s : Client W)
      → t ≤ time.at s.world
      → (goes_on m clock flags deadline s).0 ≡ true
      → (t ≤ deadline) × (t ≤ time.at (goes_on m clock flags deadline s).1.world)
  unfolding goes_on
  goes_on-time deadline t s h e =
      let (reading, w) = clock.now s.world in
      by_flag flags.retry (leb reading deadline, record s { world = w }) s
        (λ x. (t ≤ deadline) × (t ≤ time.at x.world))
        (λ early.
          let after = time.read_after s.world in
          let before = time.read_before s.world in (ground arith, omega arith))
        e
    where
      by_flag :
          (b : Bool) (x : Bool × Client W) (y : Client W) (P : Client W → Type 0)
          → (x.0 ≡ true → P x.1)
          → (if b then x else (false, y)).0 ≡ true
          → P (if b then x else (false, y)).1
      by_flag true x y P k e = k e
      by_flag false x y P k e = cc

  after_run-ends :
      (deadline t : Time) (v : Verdict) (s : Client W) (next : Client W → Ending × Client W)
      → t ≤ time.at s.world
      → ((s' : Client W) → t + minute ≤ time.at s'.world → t ≤ deadline → (next s').0 ≢ rounds_over)
      → (after_run m clock flags deadline v s next).0 ≢ rounds_over
  after_run-ends deadline t success s next h ends = λ e. cc e
  after_run-ends deadline t panic s next h ends = λ e. cc e
  after_run-ends deadline t unended s next h ends = λ e. cc e
  after_run-ends deadline t (failure x) s next h ends = by_test _ refl
    where
      after_report : Client W
      after_report = send_report m clock flags (ascii "error: " ++ clock.error_text x) s

      later : Client W
      later = (goes_on m clock flags deadline after_report).1

      by_test :
          (more : Bool)
          → (goes_on m clock flags deadline after_report).0 ≡ more
          → (if more
              then next (record later { world = clock.sleep later.world })
              else (failed, later)).0
            ≢ rounds_over
      by_test false e = λ over. cc over
      by_test true e =
          let (early, passed) =
            goes_on-time deadline t after_report
              (send_report-time (ascii "error: " ++ clock.error_text x) t s h) e in
          let slept = time.slept later.world in ends _ (omega arith) early

  run_time :
      (fuel : ℕ) (s : Client W)
      → time.at s.world ≤ time.at (run m fuel flags.action flags.add_kargs flags.dryrun s).1.world
  run_time fuel s =
      (run-Keeps m (time.stable (time.at s.world)) fuel flags.action flags.add_kargs
          flags.dryrun).at
        s (omega arith)

  retry_rounds-ends :
      (fuel rounds : ℕ) (deadline : Time) (s : Client W)
      → deadline < time.at s.world + rounds * minute
      → (retry_rounds m clock flags fuel (suc rounds) deadline s).0 ≢ rounds_over
  unfolding retry_rounds
  retry_rounds-ends fuel zero deadline s h =
      after_run-ends deadline (time.at s.world) _ _ _ (run_time fuel s)
        λ s' slept early. absurd (omega arith)
  retry_rounds-ends fuel (suc rounds) deadline s h =
      after_run-ends deadline (time.at s.world) _ _ _ (run_time fuel s)
        λ s' slept early. retry_rounds-ends fuel rounds deadline s' (omega arith)

  module _ (write : WriteFile W) where
    ending_of :
        (other ending : Ending) (s : Client W)
        → ((reboot_if write ending >> pure ending) s).0 ≡ ok other
        → ending ≡ other
    ending_of other ending s e =
        let (u, _, returned) = bind-eq-ok (reboot_if write ending) _ s e in cc returned

    main_within :
        (fuel : ℕ) (s : Client W) → (main write m clock flags fuel 362 s).0 ≢ ok rounds_over
    unfolding main run_client
    main_within fuel s e =
        let (text, _, rest) = bind-eq-ok (must no_cmdline (m.read_file flags.cmdline)) _ s e in
        let w = (m.read_file flags.cmdline s.world).1 in
        let before = time.read_before w in
        retry_rounds-ends fuel 361 _ _ (omega arith) (ending_of rounds_over _ _ rest)

    module _ (bound : ℕ) (chains : IsAcyclic m bound) where
      main_unchained :
          (rounds : ℕ) (s : Client W)
          → (main write m clock flags (suc bound) rounds s).0 ≢ ok chain_unended
      unfolding main run_client
      main_unchained rounds s e =
          let (text, _, rest) = bind-eq-ok (must no_cmdline (m.read_file flags.cmdline)) _ s e in
          retry_rounds-unchained m clock flags bound chains rounds _ _
            (ending_of chain_unended _ _ rest)

      -- The command epoxy_client ends: from whatever state it starts, it makes at most 362 rounds of
      -- its loop, in each of which it makes at most one round more than `bound` over a chain, and
      -- comes to an end of the process: after a run that succeeded, failed or panicked, or with a file
      -- that could not be read or written. Time passes: no operation of the
      -- machine turns it back, and a sleep lasts at least a minute. Chains are not circular: every URL
      -- has a depth of at most `bound`, above that of any URL that a configuration loaded from it
      -- names.
      pub main_ends : (s : Client W) → IsEnd (main write m clock flags (suc bound) 362 s).0
      main_ends s = ends_otherwise _ (main_within (suc bound) s) (main_unchained 362 s)
