-- ===== src/Providers/Breaker/Runs.antt =====
-- Runs of failures and of probes through a circuit breaker of providers/resilience.py.
use amber_claw.Base.{
  ℕ, ◌+◌, ◌≤◌, ◌≡◌, refl, false, List, [], ◌∷◌, arith, length, leb, if◌then◌else◌, All, Bool-cases,
  inl, inr,
}
use amber_claw.Providers.Breaker.{
  CircuitBreaker, closed, open_, state, can_execute, record_success, record_failure,
}
use amber_claw.Providers.Breaker.Invariant.{
  Inv, Event, succeeds, fails, resets, step, run, record_failure-Inv, record_success-Inv,
}

abbrev pub IsFailure : Event → Type 0
IsFailure (fails recorded failed now latency) = Unit {0}
IsFailure (succeeds recorded now latency) = ⊥
IsFailure resets = ⊥

-- A success, read not before the cool-down is over.
abbrev pub IsProbe : ℕ → Event → Type 0
IsProbe cooled (succeeds recorded now latency) = cooled ≤ now
IsProbe cooled (fails recorded failed now latency) = ⊥
IsProbe cooled resets = ⊥

record_failure_counts :
    (recorded failed now latency : ℕ) (b : CircuitBreaker)
    → let b' = record_failure recorded failed now latency b in
      (b'.failure_threshold ≡ b.failure_threshold) × (b'.failure_count ≡ b.failure_count + 1)
unfolding record_failure
record_failure_counts recorded failed now latency b = ground arith

-- A run of failures alone leaves the breaker open exactly when, with those counted before, it
-- reaches the threshold, and closed otherwise.
pub run_failures :
    (es : List Event) (b : CircuitBreaker)
    → Inv b
    → All IsFailure es
    → (run es b).stored
      ≡ (if leb b.failure_threshold (b.failure_count + length es) then open_ else closed)
unfolding run step
run_failures [] b v h = ground arith
run_failures (succeeds recorded now latency ∷ es) b v h = absurd h.0
run_failures (resets ∷ es) b v h = absurd h.0
run_failures (fails recorded failed now latency ∷ es) b v h =
    let b' = record_failure recorded failed now latency b in
    ground (
      arith,
      run_failures es b' (record_failure-Inv recorded failed now latency b v) h.1,
      record_failure_counts recorded failed now latency b,
    )

-- A failure that reaches the threshold, or that comes while the breaker is open or probing, blocks
-- every call until the recovery timeout after it, and none from then on.
pub record_failure-blocks :
    (recorded failed now latency later : ℕ) (b : CircuitBreaker)
    → Inv b
    → b.failure_threshold ≤ b.failure_count + 1
    → can_execute later (record_failure recorded failed now latency b)
      ≡ leb (failed + b.recovery_timeout_s) later
unfolding can_execute state record_failure
record_failure-blocks recorded failed now latency later b v h = ground arith

run_closed :
    (cooled : ℕ) (es : List Event) (b : CircuitBreaker)
    → Inv b
    → b.stored ≡ closed
    → All (IsProbe cooled) es
    → (run es b).stored ≡ closed
unfolding run step
run_closed cooled [] b v c h = c
run_closed cooled (fails recorded failed now latency ∷ es) b v c h = absurd h.0
run_closed cooled (resets ∷ es) b v c h = absurd h.0
run_closed cooled (succeeds recorded now latency ∷ es) b v c h =
    run_closed cooled es (record_success recorded now latency b)
      (record_success-Inv recorded now latency b v) (unfold record_success state in ground arith)
      h.1

record_success_probes :
    (recorded now latency : ℕ) (b : CircuitBreaker)
    → b.stored ≡ open_
    → b.last_failure_time + b.recovery_timeout_s ≤ now
    → let b' = record_success recorded now latency b in
      let n = b.success_count + 1 in
      (b'.half_open_success_threshold ≡ b.half_open_success_threshold)
      × (b'.last_failure_time + b'.recovery_timeout_s ≡ b.last_failure_time + b.recovery_timeout_s)
      × (b'.stored ≡ (if leb b.half_open_success_threshold n then closed else open_))
      × (leb b.half_open_success_threshold n ≡ false → b'.success_count ≡ n)
unfolding record_success state
record_success_probes recorded now latency b o h = ground arith

probes_from :
    (cooled : ℕ) (es : List Event) (b : CircuitBreaker)
    → Inv b
    → b.stored ≡ open_
    → cooled ≡ b.last_failure_time + b.recovery_timeout_s
    → All (IsProbe cooled) es
    → (run es b).stored
      ≡ (if leb b.half_open_success_threshold (b.success_count + length es) then closed else open_)
unfolding run step
probes_from cooled [] b v o c h = ground arith
probes_from cooled (fails recorded failed now latency ∷ es) b v o c h = absurd h.0
probes_from cooled (resets ∷ es) b v o c h = absurd h.0
probes_from cooled (succeeds recorded now latency ∷ es) b v o c h =
    let b' = record_success recorded now latency b in
    let v' = record_success-Inv recorded now latency b v in
    let facts = record_success_probes recorded now latency b o (omega arith) in
    elim (Bool-cases (leb b.half_open_success_threshold (b.success_count + 1))) [
      | inl done ↦ ground (arith, facts, run_closed cooled es b' v' (ground (arith, facts)) h.1)
      | inr more ↦ ground (
        arith,
        facts,
        probes_from cooled es b' v' (ground (arith, facts)) (ground (arith, facts)) h.1,
      )
    ]

-- While open, each success read after the cool-down counts as a probe: the breaker closes exactly
-- when as many of them as `half_open_success_threshold` have come, and stays open before.
pub run_probes :
    (es : List Event) (b : CircuitBreaker)
    → Inv b
    → b.stored ≡ open_
    → All (IsProbe (b.last_failure_time + b.recovery_timeout_s)) es
    → (run es b).stored
      ≡ (if leb b.half_open_success_threshold (b.success_count + length es) then closed else open_)
run_probes es b v o h = probes_from (b.last_failure_time + b.recovery_timeout_s) es b v o refl h
