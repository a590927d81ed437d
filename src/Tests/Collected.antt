-- ===== src/Tests/Collected.antt =====
-- The collector over the hosts of a server, of which one has booted and succeeded.
use epoxy.Base.{ascii, ◌==◌, Error, err, nil_dereference, ◌≡◌, refl, inl, ok, List, [], ◌∷◌}
use epoxy.Storage.Host.{Host, Time}
use epoxy.Base.Exec.{Exec}
use epoxy.Metrics.{last_boot, new_collector, describe, collect_hosts, collect}
use epoxy.Metrics.Collected.{booted, metrics_of, collect-booted}
use epoxy.Tests.Backend.{host}

abbrev veteran : Host
veteran = record host { last_session_creation = 7; last_success = 9 }

abbrev listed : List Host
listed = host ∷ veteran ∷ []

abbrev listing : Exec (Unit {0}) Error (List Host)
listing w = (ok listed, w)

collect-booted_example :
    collect (λ (t : Time). t) (describe (new_collector last_boot listing)).1 tt ≡ (
      (
        ok tt,
        metrics_of
            (λ t. t)
            last_boot
            (describe (new_collector last_boot listing)).0
            (booted listed),
      ),
      tt,
    )
collect-booted_example =
    collect-booted (λ (t : Time). t) listing last_boot tt listed (inl refl) refl

-- A collector that was never described panics at its first metric.
collect_tests :
    collect (λ (t : Time). t) (new_collector last_boot listing) tt ≡ ((err nil_dereference, []), tt)
unfolding collect new_collector ascii ◌==◌ collect_hosts
collect_tests = refl

booted_tests : booted listed ≡ veteran ∷ []
booted_tests = refl
