-- ===== src/Nextboot/Retry.antt =====
-- cmd/epoxy_client/main.go: an action is run and reported until it succeeds or time is up.
pub mod Laws
pub mod Ends
pub mod Reboots
use epoxy.Base.{
  ℕ, zero, suc, Str, ascii, Bool, true, false, ◌+◌, leb, not, ◌||◌, ◌++◌, none, List, [], ◌∷◌,
  Error, action_url_not_found, file_url_not_found, unsupported_type, cannot_access_host, bad_status,
  external, command_failed, nil_dereference, Outcome, ok, err, if◌then◌else◌,
}
use epoxy.Base.Exec.{Exec, pure, ◌>>=◌, ◌>>◌}
use epoxy.Storage.Host.{Time}
use epoxy.Nextboot.Cmdline.{parse_cmdline}
use epoxy.Nextboot.Client.{Machine, Client}
use epoxy.Nextboot.Run.{run, report}

-- The flags of the command.
pub record Flags : Type 0 where
  pub cmdline : Str
  pub action : Str
  pub add_kargs : Bool
  pub report : Str
  pub dryrun : Bool
  pub retry : Bool

-- How the loop ends: with a run that succeeded or failed, in a panic, or not within the rounds given
-- to a chain or to the loop.
pub data Ending : Type 0 where
  succeeded failed panicked chain_unended rounds_over : Ending

-- What Run can come to: an error, a panic, success, a chain that has not ended.
pub data Verdict : Type 0 where
  success : Verdict
  failure : Error → Verdict
  panic : Verdict
  unended : Verdict

abbrev of_error : Error → Verdict
of_error nil_dereference = panic
of_error action_url_not_found = failure action_url_not_found
of_error file_url_not_found = failure file_url_not_found
of_error unsupported_type = failure unsupported_type
of_error cannot_access_host = failure cannot_access_host
of_error (bad_status n) = failure (bad_status n)
of_error (external text) = failure (external text)
of_error (command_failed args e) = failure (command_failed args e)

abbrev pub verdict : Outcome Error Bool → Verdict
verdict (ok true) = success
verdict (ok false) = unended
verdict (err e) = of_error e

-- err.Error(), time.Now(), and time.Sleep(1 * time.Minute)
pub record Clock (W : Type 0) : Type 0 where
  pub error_text : Error → Str
  pub now : W → Time × W
  pub sleep : W → W

-- 6 * time.Hour, in nanoseconds
abbrev pub timeout : ℕ
timeout = 21_600_000_000_000

module _ {W : Type 0} (m : Machine W) (clock : Clock W) (flags : Flags) where
  -- c.Report, whose error is logged
  unfoldable pub send_report : Str → Client W → Client W
  send_report result s =
      (report m flags.report ((ascii "message", result ∷ []) ∷ []) flags.dryrun s).1

  -- Whether to go on after a failure: the condition after the report. The clock is not read
  -- without the flag.
  unfoldable pub goes_on : Time → Client W → Bool × Client W
  goes_on deadline s =
      let (time, w) = clock.now s.world in
      if flags.retry then (leb time deadline, record s { world = w }) else (false, s)

  -- The rest of a round after Run, and then `next` or the end.
  abbrev pub after_run :
      Time → Verdict → Client W → (Client W → Ending × Client W) → Ending × Client W
  after_run deadline success s next = (succeeded, send_report (ascii "success") s)
  after_run deadline (failure e) s next =
      let (more, s') = goes_on deadline (send_report (ascii "error: " ++ clock.error_text e) s) in
      if more then next (record s' { world = clock.sleep s'.world }) else (failed, s')
  after_run deadline panic s next = (panicked, s)
  after_run deadline unended s next = (chain_unended, s)

  -- The loop of main, for a number of rounds, with chains followed for `fuel` rounds.
  unfoldable pub retry_rounds : ℕ → ℕ → Time → Client W → Ending × Client W
  retry_rounds fuel zero deadline s = (rounds_over, s)
  retry_rounds fuel (suc rounds) deadline s =
      let (r, s') = run m fuel flags.action flags.add_kargs flags.dryrun s in
      after_run deadline (verdict r) s' (λ s''. retry_rounds fuel rounds deadline s'')

-- Why the process ends early, with log.Fatal: the command line is not read, or a write of `reboot`
-- fails.
pub data Halt : Type 0 where
  no_cmdline no_reboot : Error → Halt

abbrev halts : {A : Type 0} → (Error → Halt) → Outcome Error A → Outcome Halt A
halts why (ok a) = ok a
halts why (err e) = err (why e)

module _ {W : Type 0} where
  -- What ends the process if it fails.
  abbrev pub must : {A : Type 0} → (Error → Halt) → Exec W Error A → Exec (Client W) Halt A
  must why m s = let (r, w) = m s.world in (halts why r, record s { world = w })

-- ioutil.WriteFile for a name and the contents
abbrev pub WriteFile : Type 0 → Type 0
WriteFile W = Str → Str → Exec W Error (Unit {0})

module _ {W : Type 0} (write : WriteFile W) where
  unfoldable pub reboot : Exec (Client W) Halt (Unit {0})
  reboot = do
    must no_reboot (write (ascii "/proc/sys/kernel/sysrq") (b'1' ∷ []))
    must no_reboot (write (ascii "/proc/sysrq-trigger") (b'b' ∷ []))

  abbrev pub reboot_if : Ending → Exec (Client W) Halt (Unit {0})
  reboot_if failed = reboot
  reboot_if _ = pure tt

  module _ (m : Machine W) (clock : Clock W) (flags : Flags) where
    -- From the parsing of the command line on.
    unfoldable pub run_client : ℕ → ℕ → Str → Exec (Client W) Halt Ending
    unfolding reboot
    run_client fuel rounds text s =
        let (begun, w) = clock.now s.world in
        let config = parse_cmdline text (record { kargs = []; v1 = none }) in
        let (ending, s') =
          retry_rounds m clock flags fuel rounds (begun + timeout)
            (record s { config = config; world = w }) in
        (do reboot_if ending; pure ending) s'

    -- main, for a number of rounds of the loop, with chains followed for `fuel` rounds.
    unfoldable pub main : ℕ → ℕ → Exec (Client W) Halt Ending
    main fuel rounds = do
      text ← must no_cmdline (m.read_file flags.cmdline)
      run_client fuel rounds text
