-- ===== src/Providers/Tests.antt =====
-- Runs of providers/resilience.py, and its theorems at them.
use amber_claw.Base.{ℕ, ◌+◌, ◌≡◌, refl, false, List, [], ◌∷◌, arith, leb, if◌then◌else◌}
use amber_claw.Providers.Health.{IsSound, new_tracker}
use amber_claw.Providers.Breaker.{
  CircuitBreaker, closed, open_, half_open, new_breaker, state, can_execute, record_success,
  record_failure, Outcome, returned, failed, Clock,
}
use amber_claw.Providers.Breaker.Invariant.{Inv, Event, succeeds, fails, step, run, run-Inv}
use amber_claw.Providers.Breaker.Runs.{run_probes}

abbrev two_failures : List Event
two_failures = fails 10 10 10 5 ∷ fails 20 20 20 5 ∷ []

abbrev probes : List Event
probes = succeeds 60 60 5 ∷ succeeds 61 61 5 ∷ []

fresh : CircuitBreaker
fresh = new_breaker 2 30 2

tripped : CircuitBreaker
tripped = run two_failures fresh

opens : (tripped.stored ≡ open_) × (can_execute 49 tripped ≡ false) × (state 50 tripped ≡ half_open)
unfolding tripped fresh run step new_breaker record_failure state can_execute
opens = (refl, refl, refl)

closes : (run probes tripped).stored ≡ closed
unfolding tripped fresh run step new_breaker record_failure record_success state
closes = refl

run-Inv_example : Inv (run two_failures (new_breaker 2 30 2))
run-Inv_example = run-Inv 2 30 2 two_failures (omega arith) (omega arith)

fresh-Inv : Inv fresh
unfolding fresh new_breaker run
fresh-Inv = run-Inv 2 30 2 [] (omega arith) (omega arith)

abbrev once : CircuitBreaker
once = run (fails 10 10 10 5 ∷ []) (new_breaker 2 30 2)

tripped-Inv : Inv tripped
unfolding tripped fresh
tripped-Inv = run-Inv 2 30 2 two_failures (omega arith) (omega arith)

run_probes_example : (run probes tripped).stored ≡ (
    if leb tripped.half_open_success_threshold (tripped.success_count + 2) then closed else open_)
unfolding tripped fresh run step new_breaker record_failure record_success state
run_probes_example = run_probes probes tripped tripped-Inv refl (omega arith, (omega arith, tt))

abbrev fine : Outcome ℕ ℕ
fine = returned 1

abbrev boom : Outcome ℕ ℕ
boom = failed 7

abbrev early : Clock
early = record { checked = 30; cooled = 31; recorded = 32; failed_at = 33; read = 34; latency = 1 }

new_tracker-IsSound : IsSound new_tracker
unfolding new_tracker
new_tracker-IsSound = omega arith
