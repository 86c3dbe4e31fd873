-- ===== src/Providers/Breaker.antt =====
-- `CircuitBreaker` of providers/resilience.py. Clocks, timeouts and latencies are numbers of ticks;
-- each method takes the clock readings it makes, in order. `health_tracker` is the record of Health.
use amber_claw.Base.{
  ℕ, ◌+◌, ◌-◌, Bool, true, false, not, ◌||◌, Option, none, some, List, [], ◌∷◌, leb, if◌then◌else◌,
  String,
}
use amber_claw.Base.Dict
use amber_claw.Base.Dict.{Dict}
use amber_claw.Base.Key.{text_key}
use amber_claw.Providers.Health.{ProviderHealthTracker, new_tracker, record_call}
pub mod Invariant
pub mod Runs
pub mod Calls

pub data CircuitState : Type 0 where
  closed open_ half_open : CircuitState

pub record CircuitBreaker : Type 0 where
  pub failure_threshold : ℕ
  pub recovery_timeout_s : ℕ
  pub half_open_success_threshold : ℕ
  pub stored : CircuitState
  pub failure_count : ℕ
  pub success_count : ℕ
  pub last_failure_time : ℕ
  pub health_tracker : ProviderHealthTracker

-- `__init__`
unfoldable pub new_breaker : ℕ → ℕ → ℕ → CircuitBreaker
new_breaker failure_threshold recovery_timeout_s half_open_success_threshold = record {
  failure_threshold = failure_threshold;
  recovery_timeout_s = recovery_timeout_s;
  half_open_success_threshold = half_open_success_threshold;
  stored = closed;
  failure_count = 0;
  success_count = 0;
  last_failure_time = 0;
  health_tracker = new_tracker;
}

effective : CircuitState → Bool → CircuitState
effective open_ true = half_open
effective s _ = s

-- The property `state`: `now - last >= timeout` is written without the subtraction.
unfoldable pub state : ℕ → CircuitBreaker → CircuitState
unfolding effective
state now b = effective b.stored (leb (b.last_failure_time + b.recovery_timeout_s) now)

abbrev permits : CircuitState → Bool
permits open_ = false
permits _ = true

unfoldable pub can_execute : ℕ → CircuitBreaker → Bool
can_execute now b = permits (state now b)

-- The branches of `record_success` on the state read.
on_success : CircuitState → CircuitBreaker → CircuitBreaker
on_success half_open b =
    let n = b.success_count + 1 in
    if leb b.half_open_success_threshold n
    then record b { stored = closed; failure_count = 0; success_count = 0 }
    else record b { success_count = n }
on_success closed b = record b { failure_count = 0 }
on_success open_ b = b

-- `recorded` is read by the health tracker, `now` by `state`.
unfoldable pub record_success : ℕ → ℕ → ℕ → CircuitBreaker → CircuitBreaker
unfolding on_success
record_success recorded now latency b =
    let b' = record b { health_tracker = record_call recorded true latency b.health_tracker } in
    on_success (state now b') b'

abbrev is_half_open : CircuitState → Bool
is_half_open half_open = true
is_half_open _ = false

-- `recorded` is read by the health tracker, `failed` is the new failure time, `now` is read by `state`.
unfoldable pub record_failure : ℕ → ℕ → ℕ → ℕ → CircuitBreaker → CircuitBreaker
record_failure recorded failed now latency b =
    let b' = record b {
      health_tracker = record_call recorded false latency b.health_tracker;
      last_failure_time = failed;
      failure_count = b.failure_count + 1;
      success_count = 0;
    } in
    if is_half_open (state now b') || leb b.failure_threshold (b.failure_count + 1)
    then record b' { stored = open_ }
    else b'

unfoldable pub reset : CircuitBreaker → CircuitBreaker
reset b = record b { stored = closed; failure_count = 0; success_count = 0; last_failure_time = 0 }

-- How the protected coroutine ends. A cancellation is no `Exception`, so no handler sees it.
pub data Outcome {ℓ} (A : Type ℓ) (E : Type ℓ) : Type ℓ where
  returned : A → Outcome A E
  failed : E → Outcome A E
  cancelled : Outcome A E

-- What the caller sees: the coroutine's end, or `CircuitOpenError` with the time left.
pub data Reply {ℓ} (A : Type ℓ) (E : Type ℓ) : Type ℓ where
  ends : Outcome A E → Reply A E
  circuit_open : ℕ → Reply A E

-- The clock readings and the latency of one protected call.
pub record Clock : Type 0 where
  pub checked : ℕ
  pub cooled : ℕ
  pub recorded : ℕ
  pub failed_at : ℕ
  pub read : ℕ
  pub latency : ℕ

module _ {ℓ} {A : Type ℓ} {E : Type ℓ} where
  after_call : Clock → CircuitBreaker → Outcome A E → CircuitBreaker
  after_call c b (returned _) = record_success c.recorded c.read c.latency b
  after_call c b (failed _) = record_failure c.recorded c.failed_at c.read c.latency b
  after_call c b cancelled = b

  refused : Clock → CircuitBreaker → Option (Outcome A E) → Reply A E
  refused c b (some fallback) = ends fallback
  refused c b none = circuit_open (b.recovery_timeout_s + b.last_failure_time - c.cooled)

  -- `outcome` is how the coroutine ends if it is run, `fallback` how the fallback does.
  unfoldable pub call_async :
      Clock → Option (Outcome A E) → Outcome A E → CircuitBreaker → CircuitBreaker × Reply A E
  unfolding after_call refused
  call_async c fallback outcome b =
      if can_execute c.checked b
      then (after_call c b outcome, ends outcome)
      else (b, refused c b fallback)

register :
    String
    → CircuitBreaker
    → Dict String CircuitBreaker
    → Option CircuitBreaker
    → Dict String CircuitBreaker × CircuitBreaker
register name fresh d (some b) = (d, b)
register name fresh d none = (Dict.set name fresh d, fresh)

-- The registry of breakers by name; the third threshold keeps its default.
unfoldable pub get_circuit_breaker :
    String → ℕ → ℕ → Dict String CircuitBreaker → Dict String CircuitBreaker × CircuitBreaker
unfolding register
get_circuit_breaker name failure_threshold recovery_timeout_s d =
    register name (new_breaker failure_threshold recovery_timeout_s 2) d (Dict.get name d)
