-- ===== src/Governance/Rollback.antt =====
-- src/amberclaw/governance/rollback.py. A handler is a function from the step to its outcome. The
-- handlers that are registered are a dictionary of names of such functions, looked up by `call`.
use amber_claw.Base.{
  ℕ, ◌+◌, ◌≡◌, refl, ◌↔◌, Bool, true, false, not, ◌&&◌, ◌||◌, Option, none, some, String, Result,
  ok, raise, if◌then◌else◌, List, [], ◌∷◌, ◌++◌, all, map, arith,
}
use amber_claw.Base.Dict
use amber_claw.Base.Dict.{Dict, get_or}
use amber_claw.Base.Key.{text_key}
pub mod Execution

pub data RollbackStatus : Type 0 where
  pending executing completed failed : RollbackStatus

pub record RollbackStep : Type 0 where
  pub step_id : String
  pub action_type : String
  pub target : String
  pub status : RollbackStatus
  pub error : Option String

pub record RollbackPlan : Type 0 where
  pub plan_id : String
  pub action_id : String
  pub created_at : ℕ
  pub steps : List RollbackStep
  pub status : RollbackStatus

-- A handler returns a Boolean, or raises an exception with a text.
pub data HandlerResult : Type 0 where
  returns : Bool → HandlerResult
  raises : String → HandlerResult

abbrev pub Handler : Type 0
Handler = RollbackStep → HandlerResult

pub record GovernanceRollbackManager : Type 0 where
  pub plans : Dict String RollbackPlan
  pub handlers : Dict String Handler

pub data Error : Type 0 where
  plan_not_found : Error

unfoldable pub generic_noop : Handler
generic_noop s = returns true

unfoldable pub new_manager : GovernanceRollbackManager
new_manager = record {
  plans = [];
  handlers = Dict.set "git_revert" generic_noop (
      Dict.set "state_reset" generic_noop
        (Dict.set "file_restore" generic_noop (Dict.set "noop" generic_noop [])));
}

unfoldable pub register_handler :
    String → Handler → GovernanceRollbackManager → GovernanceRollbackManager
register_handler action_type h m = record m { handlers = Dict.set action_type h m.handlers }

unfoldable pub create_plan :
    String → ℕ → String → GovernanceRollbackManager → GovernanceRollbackManager × RollbackPlan
create_plan id now action_id m =
    let plan : RollbackPlan = record {
      plan_id = id;
      action_id = action_id;
      created_at = now;
      steps = [];
      status = pending;
    } in
    (record m { plans = Dict.set id plan m.plans }, plan)

add_to :
    String
    → RollbackStep
    → GovernanceRollbackManager
    → Option RollbackPlan
    → GovernanceRollbackManager × Result Error RollbackStep
add_to id s m none = (m, raise plan_not_found)
add_to id s m (some p) =
    (record m { plans = Dict.set id (record p { steps = p.steps ++ s ∷ [] }) m.plans }, ok s)

unfoldable pub add_step :
    String
    → String
    → String
    → String
    → GovernanceRollbackManager
    → GovernanceRollbackManager × Result Error RollbackStep
unfolding add_to
add_step id step_id action_type target m =
    add_to id
      (record {
        step_id = step_id;
        action_type = action_type;
        target = target;
        status = pending;
        error = none;
      })
      m (Dict.get id m.plans)

-- `self._handlers.get(step.action_type, self._handlers["noop"])`; `noop` is always registered.
unfoldable pub handler_of : GovernanceRollbackManager → RollbackStep → Handler
handler_of m s =
    get_or (get_or generic_noop (Dict.get "noop" m.handlers)) (Dict.get s.action_type m.handlers)

finish_step : RollbackStep → HandlerResult → RollbackStep
finish_step s (returns true) = record s { status = completed }
finish_step s (returns false) = record s { status = failed; error = some "Handler returned False" }
finish_step s (raises e) = record s { status = failed; error = some e }

-- The body of the loop: the handler sees the step as executing.
unfoldable pub execute_step : GovernanceRollbackManager → RollbackStep → RollbackStep
unfolding finish_step
execute_step m s = let s' = record s { status = executing } in finish_step s' (handler_of m s s')

abbrev pub is_failed : RollbackStatus → Bool
is_failed failed = true
is_failed _ = false

-- The loop, with `has_failure` as its accumulator.
unfoldable pub execute_steps :
    GovernanceRollbackManager → List RollbackStep → Bool → List RollbackStep × Bool
execute_steps m [] has_failure = ([], has_failure)
execute_steps m (s ∷ ss) has_failure =
    let s' = execute_step m s in
    let (rest, failure) = execute_steps m ss (has_failure || is_failed s'.status) in
    (s' ∷ rest, failure)

execute_found :
    String
    → GovernanceRollbackManager
    → Option RollbackPlan
    → GovernanceRollbackManager × Result Error RollbackPlan
execute_found id m none = (m, raise plan_not_found)
execute_found id m (some p) =
    let (steps, has_failure) = execute_steps m p.steps false in
    let p' = record p { steps = steps; status = if has_failure then failed else completed } in
    (record m { plans = Dict.set id p' m.plans }, ok p')

unfoldable pub execute_plan :
    String → GovernanceRollbackManager → GovernanceRollbackManager × Result Error RollbackPlan
unfolding execute_found
execute_plan id m = execute_found id m (Dict.get id m.plans)

unfoldable pub get_plan : String → GovernanceRollbackManager → Option RollbackPlan
get_plan id m = Dict.get id m.plans
