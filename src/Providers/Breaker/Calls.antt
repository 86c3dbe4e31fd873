-- ===== src/Providers/Breaker/Calls.antt =====
-- `call_async` of providers/resilience.py: what a protected call may do, and what it leaves.
use amber_claw.Base.{◌+◌, ◌-◌, ◌<◌, ◌≡◌, Option, none, some, arith}
use amber_claw.Providers.Breaker.{
  CircuitBreaker, Outcome, returned, failed, cancelled, ends, circuit_open, Clock, can_execute,
  call_async, open_, state,
}
use amber_claw.Providers.Breaker.Invariant.{Inv, record_success-Inv, record_failure-Inv}

module _ {ℓ} {A : Type ℓ} {E : Type ℓ} where
  -- A protected call keeps the invariant of the breaker, however the coroutine ends.
  call_async-Inv :
      (c : Clock) (fallback : Option (Outcome A E)) (outcome : Outcome A E) (b : CircuitBreaker)
      → Inv b
      → Inv (call_async c fallback outcome b).0
  unfolding call_async
  call_async-Inv c fallback (returned a) b v =
      ground (arith, record_success-Inv c.recorded c.read c.latency b v)
  call_async-Inv c fallback (failed e) b v =
      ground (arith, record_failure-Inv c.recorded c.failed_at c.read c.latency b v)
  call_async-Inv c fallback cancelled b v = ground arith

  -- While an open breaker cools down, a protected call without fallback raises `CircuitOpenError`
  -- with the time that is left, one with a fallback ends as that does, and both leave the breaker as
  -- it was, whatever the coroutine would have done.
  pub call_async-open :
      (c : Clock) (outcome fallback : Outcome A E) (b : CircuitBreaker)
      → b.stored ≡ open_
      → c.checked < b.last_failure_time + b.recovery_timeout_s
      → (call_async c none outcome b
          ≡ (b, circuit_open (b.recovery_timeout_s + b.last_failure_time - c.cooled)))
        × (call_async c (some fallback) outcome b ≡ (b, ends fallback))
  unfolding call_async can_execute state
  call_async-open c outcome fallback b o h = ground arith
