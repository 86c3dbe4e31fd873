-- ===== src/Providers/Bulkhead.antt =====
-- `Bulkhead` of providers/resilience.py, with the counter of its `asyncio.Semaphore`.
use amber_claw.Base.{ℕ, ◌+◌, ◌-◌, ◌≤◌, ◌≡◌, List, [], ◌∷◌, arith, leb, if◌then◌else◌}

pub record Bulkhead : Type 0 where
  pub max_concurrent : ℕ
  pub permits : ℕ
  pub active_count : ℕ

-- An acquisition is refused, waits in the semaphore, or is admitted.
pub data Acquire : Type 0 where
  exhausted waits admitted : Acquire

unfoldable pub new_bulkhead : ℕ → Bulkhead
new_bulkhead n = record { max_concurrent = n; permits = n; active_count = 0 }

unfoldable pub acquire : Bulkhead → Bulkhead × Acquire
acquire b =
    if leb b.max_concurrent b.active_count
    then (b, exhausted)
    else if leb b.permits 0
    then (b, waits)
    else (record b { permits = b.permits - 1; active_count = b.active_count + 1 }, admitted)

-- `max(0, active_count - 1)` is the truncated subtraction.
unfoldable pub release : Bulkhead → Bulkhead
release b = record b { permits = b.permits + 1; active_count = b.active_count - 1 }

pub data Call : Type 0 where
  acquires releases : Call

unfoldable pub step : Call → Bulkhead → Bulkhead
step acquires b = (acquire b).0
step releases b = release b

unfoldable pub run : List Call → Bulkhead → Bulkhead
run [] b = b
run (c ∷ cs) b = run cs (step c b)

pub record Inv (n : ℕ) (b : Bulkhead) : Type 0 where
  pub size : b.max_concurrent ≡ n
  pub bounded : b.active_count ≤ n
  pub covered : n ≤ b.active_count + b.permits

step-Inv : (n : ℕ) (c : Call) (b : Bulkhead) → Inv n b → Inv n (step c b)
unfolding step acquire release
step-Inv n acquires b v = ground arith
step-Inv n releases b v = ground arith

run_from-Inv : (n : ℕ) (cs : List Call) (b : Bulkhead) → Inv n b → Inv n (run cs b)
unfolding run
run_from-Inv n [] b v = v
run_from-Inv n (c ∷ cs) b v = run_from-Inv n cs (step c b) (step-Inv n c b v)

-- After any acquisitions and releases, paired or not, at most `max_concurrent` calls are active, and
-- the next acquisition is refused exactly when that many are, and otherwise admitted at once: it
-- never waits in the semaphore.
pub acquire-run :
    (n : ℕ) (cs : List Call)
    → let b = run cs (new_bulkhead n) in
      (b.active_count ≤ n)
      × ((acquire b).1 ≡ (if leb n b.active_count then exhausted else admitted))
unfolding acquire
acquire-run n cs =
    ground (arith, run_from-Inv n cs (new_bulkhead n) (unfold new_bulkhead in ground arith))
