-- ===== src/Heartbeat/Recovery/Limits.antt =====
-- The restart limit of heartbeat/recovery.py over the calls of a process.
use amber_claw.Base.{
  ℕ, zero, suc, ◌+◌, ◌*◌, ◌≤◌, ◌≡◌, refl, ap, ◌∙◌, inl, inr, Bool, true, false, not, Option, none,
  some, String, List, [], ◌∷◌, arith, leb, ltb, min, if◌then◌else◌, Bool-cases,
}
use amber_claw.Base.Dict
use amber_claw.Base.Dict.{get-set, get-set_self, get-set_ne, get-remove, is_some, get_or}
use amber_claw.Base.Key.{text_key}
use amber_claw.Heartbeat.Recovery.{
  ProcessRecoveryManager, new_manager, attempts_of, is_tripped, can_recover, record_attempt,
  execute_recovery, reset, get_backoff_delay, two_to,
}

pub data Call : Type 0 where
  attempt : String → Bool → Call
  recover : String → Option String → Call
  forget : String → Call

unfoldable pub step : Call → ProcessRecoveryManager → ProcessRecoveryManager
step (attempt process success) m = record_attempt process success m
step (recover process failure) m = (execute_recovery process failure m).manager
step (forget process) m = reset process m

unfoldable pub run : List Call → ProcessRecoveryManager → ProcessRecoveryManager
run [] m = m
run (c ∷ cs) m = run cs (step c m)

-- The circuit of a process is tripped exactly when its failures in a row have reached the maximum.
abbrev pub Agrees : ProcessRecoveryManager → Type 0
Agrees m = (process : String) → is_tripped process m ≡ leb m.max_attempts (attempts_of process m)

record_attempt-Agrees :
    (process : String) (success : Bool) (m : ProcessRecoveryManager)
    → 1 ≤ m.max_attempts
    → Agrees m
    → Agrees (record_attempt process success m)
unfolding record_attempt
record_attempt-Agrees process true m big h p = ground (
  arith,
  h p,
  get-set process p 0 m.attempts,
  get-remove process p m.tripped_circuits,
  text_key.same_key_iff process p,
)
record_attempt-Agrees process false m big h p = ground (
  arith,
  h p,
  h process,
  get-set process p (attempts_of process m + 1) m.attempts,
  get-set process p tt m.tripped_circuits,
  text_key.same_key_iff process p,
)

reset-Agrees :
    (process : String) (m : ProcessRecoveryManager)
    → 1 ≤ m.max_attempts
    → Agrees m
    → Agrees (reset process m)
unfolding reset
reset-Agrees process m big h p = ground (
  arith,
  h p,
  get-remove process p m.attempts,
  get-remove process p m.tripped_circuits,
  text_key.same_key_iff process p,
)

execute_recovery-Agrees :
    (process : String) (failure : Option String) (m : ProcessRecoveryManager)
    → 1 ≤ m.max_attempts
    → Agrees m
    → Agrees (execute_recovery process failure m).manager
unfolding execute_recovery
execute_recovery-Agrees process failure m big h = elim (Bool-cases (can_recover process m)) [
  | inl e ↦ rw e (record_attempt-Agrees process (not (is_some failure)) m big h)
  | inr e ↦ rw e h
]

-- No call changes the settings.
step-max : (c : Call) (m : ProcessRecoveryManager) → (step c m).max_attempts ≡ m.max_attempts
unfolding step record_attempt execute_recovery reset
step-max (attempt process true) m = refl
step-max (attempt process false) m = refl
step-max (recover process none) m = ground arith
step-max (recover process (some e)) m = ground arith
step-max (forget process) m = refl

step-Agrees :
    (c : Call) (m : ProcessRecoveryManager) → 1 ≤ m.max_attempts → Agrees m → Agrees (step c m)
unfolding step
step-Agrees (attempt process success) m = record_attempt-Agrees process success m
step-Agrees (recover process failure) m = execute_recovery-Agrees process failure m
step-Agrees (forget process) m = reset-Agrees process m

-- With a positive maximum, after any calls the circuit of a process is tripped exactly when its
-- failures in a row have reached the maximum, if it was so before.
pub run-Agrees :
    (cs : List Call) (m : ProcessRecoveryManager)
    → 1 ≤ m.max_attempts
    → Agrees m
    → Agrees (run cs m)
unfolding run
run-Agrees [] m big h = h
run-Agrees (c ∷ cs) m big h =
    run-Agrees cs (step c m) (omega (arith, step-max c m)) (step-Agrees c m big h)

abbrev pub failures : ℕ → String → String → List Call
failures zero process e = []
failures (suc n) process e = recover process (some e) ∷ failures n process e

failed_attempts :
    (process e : String) (m : ProcessRecoveryManager)
    → 1 ≤ m.max_attempts
    → Agrees m
    → attempts_of process m ≤ m.max_attempts
    → let m' = step (recover process (some e)) m in
      (attempts_of process m' ≡ min (attempts_of process m + 1) m.max_attempts)
      × (m'.base_backoff ≡ m.base_backoff)
      × (m'.max_backoff ≡ m.max_backoff)
unfolding step execute_recovery record_attempt can_recover
failed_attempts process e m big h few =
    ground (arith, h process, get-set_self process (attempts_of process m + 1) m.attempts)

run-failures :
    (n : ℕ) (process e : String) (m : ProcessRecoveryManager)
    → 1 ≤ m.max_attempts
    → Agrees m
    → attempts_of process m ≤ m.max_attempts
    → let m' = run (failures n process e) m in
      (attempts_of process m' ≡ min (attempts_of process m + n) m.max_attempts)
      × (m'.base_backoff ≡ m.base_backoff)
      × (m'.max_backoff ≡ m.max_backoff)
      × (m'.max_attempts ≡ m.max_attempts)
unfolding run
run-failures zero process e m big h few = ground arith
run-failures (suc n) process e m big h few = ground (
  arith,
  failed_attempts process e m big h few,
  step-max (recover process (some e)) m,
  run-failures n process e (step (recover process (some e)) m)
      (omega (arith, step-max (recover process (some e)) m))
      (step-Agrees (recover process (some e)) m big h)
      (ground
        (arith, failed_attempts process e m big h few, step-max (recover process (some e)) m)),
)

pub new_manager-Agrees : (most base longest : ℕ) → 1 ≤ most → Agrees (new_manager most base longest)
unfolding Dict.get
new_manager-Agrees most base longest big process = ground (arith, big)

new_manager-attempts :
    (most base longest : ℕ) (process : String)
    → attempts_of process (new_manager most base longest) ≡ 0
unfolding Dict.get
new_manager-attempts most base longest process = refl

delay_of : ℕ → ℕ → ℕ → ℕ → Option ℕ
delay_of k most base longest = if ltb k most then some (min (base * two_to k) longest) else none

execute_recovery-slept :
    (process : String) (outcome : Option String) (m : ProcessRecoveryManager)
    → Agrees m
    → (execute_recovery process outcome m).slept
      ≡ delay_of (attempts_of process m) m.max_attempts m.base_backoff m.max_backoff
unfolding execute_recovery can_recover get_backoff_delay delay_of
execute_recovery-slept process outcome m h = ground (arith, h process)

delay_of-min :
    (n most base longest : ℕ)
    → delay_of (min n most) most base longest ≡ delay_of n most base longest
unfolding delay_of
delay_of-min n most base longest = elim (Bool-cases (ltb n most)) [
  | inl e ↦ ap (λ k. delay_of k most base longest) (ground arith)
  | inr e ↦ ground arith
]

-- A restart that keeps failing is tried the maximum number of times, the one after `n` failures with
-- a delay of the base times 2 to the `n`, cut off at the longest delay; after that it is not tried.
pub execute_recovery-failures :
    (n most base longest : ℕ) (process e : String) (outcome : Option String)
    → 1 ≤ most
    → (execute_recovery process outcome
        (run (failures n process e) (new_manager most base longest))).slept
      ≡ (if ltb n most then some (min (base * two_to n) longest) else none)
unfolding delay_of
execute_recovery-failures n most base longest process e outcome big =
    execute_recovery-slept process outcome m (run-Agrees (failures n process e) start big fresh)
    ∙ cc (after.0, after.1, after.2, after.3)
    ∙ delay_of-min n most base longest
  where
    start : ProcessRecoveryManager
    start = new_manager most base longest

    m : ProcessRecoveryManager
    m = run (failures n process e) start

    fresh : Agrees start
    fresh = new_manager-Agrees most base longest big

    after :
        (attempts_of process m ≡ min n most)
        × (m.base_backoff ≡ base)
        × (m.max_backoff ≡ longest)
        × (m.max_attempts ≡ most)
    after = ground (
      arith,
      run-failures n process e start big fresh
          (ground (arith, new_manager-attempts most base longest process)),
      new_manager-attempts most base longest process,
    )
