-- ===== src/Governance/Tests.antt =====
-- Runs of src/amberclaw/governance, and its theorems at them.
use amber_claw.Base.{◌≡◌, refl, true, false, none, some, List, [], ◌∷◌, arith, filter, map}
use amber_claw.Base.Dict
use amber_claw.Base.Key.{text_key}
use amber_claw.Base.Text.{same_code, lower, text_eq, starts, occurs}
use amber_claw.Governance.Workflow.{
  ApprovalRequest, WorkflowEngine, human_review, approved, store, submit_request,
}
use amber_claw.Governance.Workflow.Decision.{AllAgree, Call, submit, vote, run, run-AllAgree}
use amber_claw.Governance.Workflow.Approvals.{Ballot}
use amber_claw.Governance.Policies.{
  PolicyRule, PolicyEngine, deny, warn, star, targets, triggers, prioritize, tally, list_policies,
  evaluate,
}
use amber_claw.Governance.Policies.Priority.{rank, highest, evaluate-strictest}
use amber_claw.Governance.Rollback.{
  RollbackPlan, RollbackStep, GovernanceRollbackManager, pending, failed, generic_noop,
  execute_step, handler_of, raises,
}
use amber_claw.Governance.Rollback.Execution.{outcome}

abbrev request : ApprovalRequest
request = record {
  request_id = "R-1";
  requester_id = "dev";
  stage = human_review;
  required_approvals = 2;
  votes = [];
  created_at = 100;
  expires_at = some 86500;
}

abbrev one_request : WorkflowEngine
one_request = record { requests = ("R-1", request) ∷ [] }

submit_one :
    submit_request "R-1" 100 "dev" 2 true (record { requests = [] }) ≡ (one_request, request)
unfolding submit_request store Dict.set
submit_one = refl

calls : List Call
calls = vote "R-1" 200 201 "ann" true ∷ vote "R-1" 300 301 "bob" false ∷ []

no_requests-AllAgree : AllAgree (record { requests = [] })
unfolding Dict.get
no_requests-AllAgree id r found = ground arith

run-AllAgree_example :
    AllAgree (run (submit "R-1" 100 "dev" 2 true ∷ calls) (record { requests = [] }))
run-AllAgree_example =
    run-AllAgree (submit "R-1" 100 "dev" 2 true ∷ calls) (record { requests = [] })
      no_requests-AllAgree

abbrev closed_request : ApprovalRequest
closed_request = record request { stage = approved }

-- Two approvals of one reviewer.
abbrev twice : List Ballot
twice =
    record { reviewer = "ann"; now = 200; stamped = 201 }
    ∷ record { reviewer = "ann"; now = 210; stamped = 211 }
    ∷ []

abbrev no_sudo : PolicyRule
no_sudo = record {
  policy_id = "P-1";
  name = "No sudo";
  target_actions = (b'b' ∷ b's' ∷ []) ∷ [];
  max_cost = none;
  forbidden_tokens = (b's' ∷ b'u' ∷ []) ∷ [];
  enforcement = deny;
  enabled = true;
}

abbrev warn_all : PolicyRule
warn_all = record no_sudo {
  policy_id = "P-2";
  target_actions = star ∷ [];
  forbidden_tokens = [];
  enforcement = warn;
}

abbrev engine : PolicyEngine
engine = record { policies = ("P-1", no_sudo) ∷ ("P-2", warn_all) ∷ [] }

evaluate_sudo : evaluate (b'B' ∷ b'S' ∷ []) (b'S' ∷ b'U' ∷ []) 0 engine ≡ record {
  is_allowed = false;
  requires_approval = false;
  enforcement = deny;
  triggered_policies = "P-1" ∷ "P-2" ∷ [];
  reasons = "No sudo" ∷ "No sudo" ∷ [];
}
unfolding evaluate list_policies tally triggers targets prioritize lower text_eq starts occurs
    same_code
evaluate_sudo = refl

evaluate-strictest_example :
    let hits = filter (triggers (b'b' ∷ b's' ∷ []) (b's' ∷ b'u' ∷ []) 0) (list_policies engine) in
    (rank (evaluate (b'b' ∷ b's' ∷ []) (b's' ∷ b'u' ∷ []) 0 engine).enforcement ≡ highest hits)
    × ((evaluate (b'b' ∷ b's' ∷ []) (b's' ∷ b'u' ∷ []) 0 engine).triggered_policies
        ≡ map (λ p. p.policy_id) hits)
evaluate-strictest_example = evaluate-strictest (b'b' ∷ b's' ∷ []) (b's' ∷ b'u' ∷ []) 0 engine

abbrev noop_step : RollbackStep
noop_step = record {
  step_id = "S-1";
  action_type = "unknown";
  target = "/etc";
  status = pending;
  error = none;
}

abbrev plan : RollbackPlan
plan = record {
  plan_id = "B-1";
  action_id = "A-1";
  created_at = 1;
  steps = noop_step ∷ record noop_step { action_type = "bad" } ∷ noop_step ∷ [];
  status = pending;
}

abbrev manager : GovernanceRollbackManager
manager = record {
  plans = ("B-1", plan) ∷ [];
  handlers = ("noop", generic_noop) ∷ ("bad", λ s. raises "boom") ∷ [];
}

execute_fails : (outcome manager plan).status ≡ failed
unfolding execute_step handler_of generic_noop Dict.get
execute_fails = refl
