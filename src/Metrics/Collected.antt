-- ===== src/Metrics/Collected.antt =====
-- metrics/metrics.go: what Collect sends.
use epoxy.Base.{
  Str, ◌==◌, eq_iff, ◌≡◌, ◌⊎◌, refl, ◌||◌, List, [], ◌∷◌, Error, ok, none, some, arith,
  if◌then◌else◌,
}
use epoxy.Base.Exec.{Exec}
use epoxy.Storage.Host.{Host, Time}
use epoxy.Metrics.{
  Desc, Metric, last_boot, last_success_name, is_zero, new_collector, desc_of, describe,
  collect_hosts, collect,
}

-- The hosts that have started a boot and have reported a success, in the order of the list.
abbrev pub booted : List Host → List Host
booted [] = []
booted (h ∷ hosts) =
    let rest = booted hosts in
    if is_zero h.last_session_creation || is_zero h.last_success then rest else h ∷ rest

-- The time that a collector reports of a host.
abbrev pub reported_time : Str → Host → Time
reported_time name h = if name == last_boot then h.last_session_creation else h.last_success

module _ {F : Type 0} (seconds : Time → F) where
  abbrev pub metrics_of : Str → Desc → List Host → List (Metric F)
  metrics_of name desc [] = []
  metrics_of name desc (h ∷ hosts) =
      record { desc = desc; value = seconds (reported_time name h); machine = h.name }
      ∷ metrics_of name desc hosts

  collect_hosts-metrics_of :
      (name : Str) (desc : Desc) (hosts : List Host)
      → (name ≡ last_boot) ⊎ (name ≡ last_success_name)
      → collect_hosts seconds name (some desc) hosts ≡ (ok tt, metrics_of name desc (booted hosts))
  unfolding collect_hosts
  collect_hosts-metrics_of name desc [] known = refl
  collect_hosts-metrics_of name desc (h ∷ hosts) known = ground (
    arith,
    collect_hosts-metrics_of name desc hosts known,
    eq_iff name last_boot,
    eq_iff name last_success_name,
  )

  -- A collector with one of the two names, over a storage whose hosts can be listed, once it has been
  -- described: it sends, under that description, one metric for each host that has started a boot
  -- and has once reported a success, in the order of the list, with its time of last boot or of last
  -- success. It does not panic, and the world is as the listing leaves it.
  pub collect-booted :
      {W : Type 0} (list : Exec W Error (List Host)) (name : Str) (w : W) (hosts : List Host)
      → (name ≡ last_boot) ⊎ (name ≡ last_success_name)
      → (list w).0 ≡ ok hosts
      → let (desc, col) = describe (new_collector name list) in
        collect seconds col w ≡ ((ok tt, metrics_of name desc (booted hosts)), (list w).1)
  unfolding collect describe new_collector
  collect-booted list name w hosts known e =
      cc (collect_hosts-metrics_of name (desc_of name none) hosts known, e)
