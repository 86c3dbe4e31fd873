-- ===== src/Heartbeat/Tests.antt =====
-- Runs of src/amberclaw/heartbeat, and its theorems at them.
use amber_claw.Base.{
  ◌*◌, ◌≡◌, refl, true, false, none, some, [], ◌∷◌, arith, ltb, min, if◌then◌else◌,
}
use amber_claw.Base.Dict
use amber_claw.Base.Key.{text_key}
use amber_claw.Heartbeat.Recovery.{
  ProcessRecoveryManager, new_manager, two_to, get_backoff_delay, can_recover, record_attempt,
  execute_recovery, reset,
}
use amber_claw.Heartbeat.Recovery.Limits.{forget, step, run, failures, execute_recovery-failures}

program : Unit {0}
unfolding Dict.get Dict.set Dict.remove get_backoff_delay can_recover record_attempt
    execute_recovery reset step run
program = tt

abbrev manager : ProcessRecoveryManager
manager = new_manager 3 10 25

third_delay : (execute_recovery "p" none (run (failures 2 "p" "down") manager)).slept ≡ some 25
unfolding program
third_delay = refl

fourth_refused : can_recover "p" (run (failures 3 "p" "down") manager) ≡ false
unfolding program
fourth_refused = refl

forgotten : can_recover "p" (run (forget "p" ∷ []) (run (failures 3 "p" "down") manager)) ≡ true
unfolding program
forgotten = refl

execute_recovery-failures_example :
    (execute_recovery "p" none (run (failures 2 "p" "down") (new_manager 3 10 25))).slept
    ≡ (if ltb 2 3 then some (min (10 * two_to 2) 25) else none)
execute_recovery-failures_example =
    execute_recovery-failures 2 3 10 25 "p" "down" none (omega arith)
