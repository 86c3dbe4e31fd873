-- ===== src/Governance/Rollback/Execution.antt =====
-- What a run of a plan of governance/rollback.py leaves.
use amber_claw.Base.{
  ◌≡◌, refl, Bool, true, false, not, ◌||◌, some, String, ok, if◌then◌else◌, List, [], ◌∷◌, all, map,
  arith,
}
use amber_claw.Base.Dict
use amber_claw.Base.Dict.{get-set_self}
use amber_claw.Base.Key.{text_key}
use amber_claw.Governance.Rollback.{
  RollbackStep, RollbackPlan, RollbackStatus, completed, failed, GovernanceRollbackManager,
  execute_step, execute_steps, execute_plan, is_failed, get_plan,
}

abbrev pub is_completed : RollbackStatus → Bool
is_completed completed = true
is_completed _ = false

execute_step-ends :
    (m : GovernanceRollbackManager) (s : RollbackStep)
    → is_completed (execute_step m s).status ≡ not (is_failed (execute_step m s).status)
unfolding execute_step
execute_step-ends m s = ground arith

execute_steps_lem :
    (m : GovernanceRollbackManager) (ss : List RollbackStep) (f : Bool)
    → execute_steps m ss f ≡ (
      map (execute_step m) ss,
      f || not (all (λ s. is_completed s.status) (map (execute_step m) ss)),
    )
unfolding execute_steps
execute_steps_lem m [] f = ground arith
execute_steps_lem m (s ∷ ss) f = ground (
  arith,
  execute_step-ends m s,
  execute_steps_lem m ss (f || is_failed (execute_step m s).status),
)

-- A plan after its execution.
abbrev pub outcome : GovernanceRollbackManager → RollbackPlan → RollbackPlan
outcome m p =
    let steps = map (execute_step m) p.steps in
    record p {
      steps = steps;
      status = if all (λ s. is_completed s.status) steps then completed else failed;
    }

execute_plan-outcome :
    (id : String) (m : GovernanceRollbackManager) (p : RollbackPlan)
    → get_plan id m ≡ some p
    → execute_plan id m ≡ (record m { plans = Dict.set id (outcome m p) m.plans }, ok (outcome m p))
unfolding execute_plan get_plan
execute_plan-outcome id m p found = ground (arith, found, execute_steps_lem m p.steps false)

-- Executing a stored plan runs every step once, in order, a failure stopping none of those after it,
-- and stores the plan as completed exactly when every step has completed, and as failed otherwise.
pub execute_plan_lem :
    (id : String) (m : GovernanceRollbackManager) (p : RollbackPlan)
    → get_plan id m ≡ some p
    → ((execute_plan id m).1 ≡ ok (outcome m p))
      × (get_plan id (execute_plan id m).0 ≡ some (outcome m p))
unfolding get_plan
execute_plan_lem id m p found =
    rw (execute_plan-outcome, found) (refl, get-set_self id (outcome m p) m.plans)
