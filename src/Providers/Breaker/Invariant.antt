-- ===== src/Providers/Breaker/Invariant.antt =====
-- What holds of a circuit breaker of providers/resilience.py between two calls.
use amber_claw.Base.{ℕ, ◌≤◌, ◌<◌, ◌≡◌, ◌≢◌, List, [], ◌∷◌, arith}
use amber_claw.Providers.Breaker.{
  CircuitBreaker, closed, open_, half_open, new_breaker, state, record_success, record_failure,
  reset,
}

pub record Inv (b : CircuitBreaker) : Type 0 where
  pub threshold_pos : 0 < b.failure_threshold
  pub probes_pos : 0 < b.half_open_success_threshold
  pub never_half_open : b.stored ≢ half_open
  pub closed_below : b.stored ≡ closed → b.failure_count < b.failure_threshold
  pub closed_clean : b.stored ≡ closed → b.success_count ≡ 0
  pub open_reached : b.stored ≡ open_ → b.failure_threshold ≤ b.failure_count
  pub open_probing : b.stored ≡ open_ → b.success_count < b.half_open_success_threshold

pub data Event : Type 0 where
  succeeds : ℕ → ℕ → ℕ → Event
  fails : ℕ → ℕ → ℕ → ℕ → Event
  resets : Event

unfoldable pub step : Event → CircuitBreaker → CircuitBreaker
step (succeeds recorded now latency) b = record_success recorded now latency b
step (fails recorded failed now latency) b = record_failure recorded failed now latency b
step resets b = reset b

unfoldable pub run : List Event → CircuitBreaker → CircuitBreaker
run [] b = b
run (e ∷ es) b = run es (step e b)

pub new_breaker-Inv : (f r h : ℕ) → 0 < f → 0 < h → Inv (new_breaker f r h)
unfolding new_breaker
new_breaker-Inv f r h p q = ground arith

pub record_success-Inv :
    (recorded now latency : ℕ) (b : CircuitBreaker)
    → Inv b
    → Inv (record_success recorded now latency b)
unfolding record_success state
record_success-Inv recorded now latency b v = ground arith

pub record_failure-Inv :
    (recorded failed now latency : ℕ) (b : CircuitBreaker)
    → Inv b
    → Inv (record_failure recorded failed now latency b)
unfolding record_failure state
record_failure-Inv recorded failed now latency b v = ground arith

reset-Inv : (b : CircuitBreaker) → Inv b → Inv (reset b)
unfolding reset
reset-Inv b v = ground arith

run_from-Inv : (es : List Event) (b : CircuitBreaker) → Inv b → Inv (run es b)
unfolding run step
run_from-Inv [] b v = v
run_from-Inv (succeeds recorded now latency ∷ es) b v =
    run_from-Inv es (record_success recorded now latency b)
      (record_success-Inv recorded now latency b v)
run_from-Inv (fails recorded failed now latency ∷ es) b v =
    run_from-Inv es (record_failure recorded failed now latency b)
      (record_failure-Inv recorded failed now latency b v)
run_from-Inv (resets ∷ es) b v = run_from-Inv es (reset b) (reset-Inv b v)

-- After any history of a new breaker with positive thresholds: the stored state is never half-open;
-- while closed, fewer failures than the threshold are counted, and no probes; while open, the
-- threshold was reached, and fewer probes than asked for have succeeded.
pub run-Inv : (f r h : ℕ) (es : List Event) → 0 < f → 0 < h → Inv (run es (new_breaker f r h))
run-Inv f r h es p q = run_from-Inv es (new_breaker f r h) (new_breaker-Inv f r h p q)
