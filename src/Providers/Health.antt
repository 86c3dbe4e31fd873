-- ===== src/Providers/Health.antt =====
-- `ProviderHealthTracker` of providers/resilience.py: the counters and the bounded window of calls.
-- The score that is computed from them in floating point is not modelled.
use amber_claw.Base.{
  ℕ, ◌+◌, ◌-◌, ◌≤◌, Bool, List, [], ◌∷◌, ◌++◌, arith, length, drop, length-append, length-drop,
  if◌then◌else◌,
}

pub record Sample : Type 0 where
  pub at : ℕ
  pub success : Bool
  pub latency_ms : ℕ

pub record ProviderHealthTracker : Type 0 where
  pub window_size : ℕ
  pub history : List Sample
  pub total_calls : ℕ
  pub total_failures : ℕ
  pub consecutive_failures : ℕ

-- `deque(maxlen=n).append(x)`
unfoldable pub append_bounded : ℕ → List Sample → Sample → List Sample
append_bounded n xs x = let ys = xs ++ x ∷ [] in drop (length ys - n) ys

unfoldable pub new_tracker : ProviderHealthTracker
new_tracker = record {
  window_size = 50;
  history = [];
  total_calls = 0;
  total_failures = 0;
  consecutive_failures = 0;
}

-- `now` is the clock reading that is stored with the call.
unfoldable pub record_call : ℕ → Bool → ℕ → ProviderHealthTracker → ProviderHealthTracker
record_call now success latency_ms h =
    let h' = record h {
      total_calls = h.total_calls + 1;
      history =
          append_bounded h.window_size h.history
            (record { at = now; success = success; latency_ms = latency_ms });
    } in
    if success then record h' { consecutive_failures = 0 } else record h' {
      total_failures = h.total_failures + 1;
      consecutive_failures = h.consecutive_failures + 1;
    }

pub record IsSound (h : ProviderHealthTracker) : Type 0 where
  pub windowed : length h.history ≤ h.window_size
  pub recent : length h.history ≤ h.total_calls
  pub counted : h.total_failures ≤ h.total_calls
  pub streak : h.consecutive_failures ≤ h.total_failures

length-append_bounded :
    (n : ℕ) (xs : List Sample) (x : Sample)
    → (length (append_bounded n xs x) ≤ n) × (length (append_bounded n xs x) ≤ length xs + 1)
unfolding append_bounded
length-append_bounded n xs x =
    let ys = xs ++ x ∷ [] in
    omega (arith, length-drop (length ys - n) ys, length-append xs (x ∷ []))

-- Recording a call keeps the window within its size and the counters in order: no more failures
-- than calls, and no longer streak of failures than failures.
pub record_call-IsSound :
    (now : ℕ) (success : Bool) (latency_ms : ℕ) (h : ProviderHealthTracker)
    → IsSound h
    → IsSound (record_call now success latency_ms h)
unfolding record_call
record_call-IsSound now success latency_ms h s = ground (
  arith,
  length-append_bounded h.window_size h.history
      (record { at = now; success = success; latency_ms = latency_ms }),
)
