-- ===== src/Nextboot/Retry/Reboots.antt =====
-- cmd/epoxy_client/main.go: what the client does to the machine beside its runs and reports.
use epoxy.Base.{ascii}
use epoxy.Nextboot.Client.{Machine, Client}
use epoxy.Nextboot.World.{IsStable}
use epoxy.Nextboot.Retry.{
  Ending, succeeded, failed, panicked, chain_unended, rounds_over, Clock, WriteFile,
}

-- A property of the world that no operation of the machine or of the clock ends.
pub record IsLasting {W : Type 0} (P : W → Type 0) (m : Machine W) (clock : Clock W) : Type 0 where
  pub stable : IsStable P m
  pub now : (w : W) → P w → P (clock.now w).1
  pub sleep : (w : W) → P w → P (clock.sleep w)

-- The two writes of a reboot after a run that failed, and nothing after any other end.
abbrev pub rebooted_if : {W : Type 0} → WriteFile W → Ending → W → W
rebooted_if write failed w =
    (write (ascii "/proc/sysrq-trigger") (ascii "b")
      (write (ascii "/proc/sys/kernel/sysrq") (ascii "1") w).1).1
rebooted_if write succeeded w = w
rebooted_if write panicked w = w
rebooted_if write chain_unended w = w
rebooted_if write rounds_over w = w
