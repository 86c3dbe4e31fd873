-- ===== src/Heartbeat/Recovery.antt =====
-- src/amberclaw/heartbeat/recovery.py: restarts with exponential backoff. Delays are natural numbers of
-- one unit of time; a restart is its outcome, the error's text or nothing.
use amber_claw.Base.{
  ℕ, zero, suc, ◌+◌, ◌*◌, Bool, true, false, not, ◌&&◌, Option, none, some, String, leb, ltb, min,
  if◌then◌else◌, List, [], ◌∷◌,
}
use amber_claw.Base.Dict
use amber_claw.Base.Dict.{Dict, get_or, is_some}
use amber_claw.Base.Key.{text_key}
pub mod Limits

-- The set of tripped circuits is a dictionary to the one-element type.
pub record ProcessRecoveryManager : Type 0 where
  pub max_attempts : ℕ
  pub base_backoff : ℕ
  pub max_backoff : ℕ
  pub attempts : Dict String ℕ
  pub tripped_circuits : Dict String (Unit {0})

abbrev pub new_manager : ℕ → ℕ → ℕ → ProcessRecoveryManager
new_manager most base longest = record {
  max_attempts = most;
  base_backoff = base;
  max_backoff = longest;
  attempts = [];
  tripped_circuits = [];
}

-- `self._attempts.get(process_id, 0)`
abbrev pub attempts_of : String → ProcessRecoveryManager → ℕ
attempts_of process m = get_or 0 (Dict.get process m.attempts)

abbrev pub is_tripped : String → ProcessRecoveryManager → Bool
is_tripped process m = Dict.has process m.tripped_circuits

abbrev pub two_to : ℕ → ℕ
two_to zero = 1
two_to (suc n) = two_to n + two_to n

unfoldable pub get_backoff_delay : String → ProcessRecoveryManager → ℕ
get_backoff_delay process m = min (m.base_backoff * two_to (attempts_of process m)) m.max_backoff

unfoldable pub can_recover : String → ProcessRecoveryManager → Bool
can_recover process m = not (is_tripped process m) && ltb (attempts_of process m) m.max_attempts

unfoldable pub record_attempt : String → Bool → ProcessRecoveryManager → ProcessRecoveryManager
record_attempt process true m = record m {
  attempts = Dict.set process 0 m.attempts;
  tripped_circuits = Dict.remove process m.tripped_circuits;
}
record_attempt process false m =
    let curr = attempts_of process m + 1 in
    record m {
      attempts = Dict.set process curr m.attempts;
      tripped_circuits =
          if leb m.max_attempts curr
          then Dict.set process tt m.tripped_circuits
          else m.tripped_circuits;
    }

-- What `execute_recovery` did: the manager, the time it slept if it tried, and its result.
pub record Recovery : Type 0 where
  pub manager : ProcessRecoveryManager
  pub slept : Option ℕ
  pub recovered : Bool

unfoldable pub execute_recovery : String → Option String → ProcessRecoveryManager → Recovery
execute_recovery process failure m =
    if not (can_recover process m)
    then record { manager = m; slept = none; recovered = false }
    else record {
      manager = record_attempt process (not (is_some failure)) m;
      slept = some (get_backoff_delay process m);
      recovered = not (is_some failure);
    }

unfoldable pub reset : String → ProcessRecoveryManager → ProcessRecoveryManager
reset process m = record m {
  attempts = Dict.remove process m.attempts;
  tripped_circuits = Dict.remove process m.tripped_circuits;
}
