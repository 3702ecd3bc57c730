-- ===== src/Tests/Breaker.antt =====
-- The circuit breaker on a store in memory.
use pornarr.Common.{◌≡◌, refl, none, some, [], ◌∷◌, arith}
use pornarr.Breaker.{healthy, unhealthy, half_open, timeout, transient, probe}
use pornarr.Breaker.Commands.{failure_key}
use pornarr.Breaker.InMemory.{memory, empty}
use pornarr.Breaker.Failures.{record_failures, opens_at_three}

-- An open breaker lets a request probe after 300 seconds.
probes : (probe memory 7 unhealthy (some 1000) (some timeout) 1300 empty).0 ≡ some half_open
unfolding memory empty probe
probes = refl

silent : memory.value empty (failure_key 7) 1000 ≡ none
unfolding memory empty
silent = refl

opens_at_three_example :
    (record_failures memory 7 healthy
      ((1000, timeout) ∷ (1100, transient) ∷ (1299, timeout) ∷ [])
      empty).0
    ≡ unhealthy
opens_at_three_example =
    opens_at_three memory 7 1000 healthy timeout ((1100, transient) ∷ (1299, timeout) ∷ []) empty
      silent refl (omega arith, omega arith, (omega arith, omega arith, tt))
