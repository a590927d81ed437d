-- ===== src/Metrics.antt =====
-- metrics/metrics.go: the metrics of package metrics, and the collector of the times of last boots and
-- last successes.
pub mod Collected
use epoxy.Base.{
  ℕ, Str, ascii, ◌==◌, Bool, true, false, ◌||◌, Option, none, some, List, [], ◌∷◌, ◌++◌, Error,
  nil_dereference, Outcome, ok, err, same_byte, if◌then◌else◌,
}
use epoxy.Base.Exec.{Exec}
use epoxy.Storage.Host.{Host, Time}

-- prometheus.Desc, as NewDesc, CounterOpts and HistogramOpts are filled: no constant labels.
pub record Desc : Type 0 where
  pub name : Str
  pub help : Str
  pub labels : List Str

abbrev pub machine_label : List Str
machine_label = ascii "machine" ∷ []

unfoldable pub stage1_total : Desc
unfolding ascii
stage1_total = record {
  name = ascii "epoxy_stage1_total";
  help = ascii "Total number of boots per machine.";
  labels = machine_label;
}

unfoldable pub request_duration : Desc
unfolding ascii
request_duration = record {
  name = ascii "epoxy_request_duration_seconds";
  help = ascii "A histogram of request latencies.";
  labels = ascii "code" ∷ [];
}

-- A constant gauge. `F` stands for float64.
pub record Metric (F : Type 0) : Type 0 where
  pub desc : Desc
  pub value : F
  pub machine : Str

-- `desc` is a pointer. `list` is the method of the interface Config.
pub record Collector (W : Type 0) : Type 0 where
  pub name : Str
  pub desc : Option Desc
  pub list : Exec W Error (List Host)

abbrev pub last_boot : Str
last_boot = ascii "epoxy_last_boot"

abbrev pub last_success_name : Str
last_success_name = ascii "epoxy_last_success"

-- t.IsZero()
abbrev pub is_zero : Time → Bool
is_zero t = same_byte t 0

abbrev pub desc_of : Str → Option Desc → Desc
desc_of name none = record {
  name = name;
  help = ascii "The last timestamp for " ++ name;
  labels = machine_label;
}
desc_of name (some desc) = desc

module _ {W : Type 0} where
  unfoldable pub new_collector : Str → Exec W Error (List Host) → Collector W
  new_collector metric_name config = record { name = metric_name; desc = none; list = config }

  -- Describe: what is sent, and the collector, which keeps its description.
  unfoldable pub describe : Collector W → Desc × Collector W
  describe col = let desc = desc_of col.name col.desc in (desc, record col { desc = some desc })

-- What a collector sends until it returns or panics.
abbrev pub Sent : Type 0 → Type 0
Sent F = Outcome Error (Unit {0}) × List (Metric F)

module _ {F : Type 0} (seconds : Time → F) where
  -- ch <- MustNewConstMetric(…), which panics on a nil description, and the rest of the loop
  abbrev pub send : Option Desc → Time → Str → Sent F → Sent F
  send none time machine rest = (err nil_dereference, [])
  send (some desc) time machine (r, sent) =
      (r, record { desc = desc; value = seconds time; machine = machine } ∷ sent)

  -- The loop of Collect over the hosts. An unknown name ends it at the first host that is not
  -- skipped.
  unfoldable pub collect_hosts : Str → Option Desc → List Host → Sent F
  collect_hosts name desc [] = (ok tt, [])
  collect_hosts name desc (h ∷ hosts) =
      let rest = collect_hosts name desc hosts in
      if is_zero h.last_session_creation || is_zero h.last_success
      then rest
      else if name == last_boot
      then send desc h.last_session_creation h.name rest
      else if name == last_success_name
      then send desc h.last_success h.name rest
      else (ok tt, [])

  abbrev sent : Str → Option Desc → Outcome Error (List Host) → Sent F
  sent name desc (err e) = (ok tt, [])
  sent name desc (ok hosts) = collect_hosts name desc hosts

  -- Collect; an error of the listing is logged.
  unfoldable pub collect : {W : Type 0} → Collector W → W → Sent F × W
  collect col w = let (r, w') = col.list w in (sent col.name col.desc r, w')
