-- ===== src/Security/Tests.antt =====
-- Runs of src/amberclaw/security, and its theorems at them.
use amber_claw.Base.{
  List, inl, inr, ◌+◌, ◌-◌, ◌≤◌, ◌≡◌, refl, ◌↔◌, ◌⊎◌, true, false, some, raise, [], ◌∷◌, any, min,
  max, ltb,
}
use amber_claw.Base.Dict
use amber_claw.Base.Key.{text_key, pair_key, contains, truthy}
use amber_claw.Security.Abac.{
  allow, deny, AbacPolicyRule, AbacPolicyEngine, SubjectAttributes, ResourceBoundary, evaluate,
  some_rule, rule_matches, cleared, clearance_level, covers, JustInTimeElevationManager,
  grant_elevation, is_elevated, revoke_elevation, enforce, access_denied,
}
use amber_claw.Security.Abac.Decision.{evaluate_iff, denies, allows}
use amber_claw.Security.Abac.Elevation.{run, check, revoke, grant_elevation-ends}
use amber_claw.Security.Approval.{
  low, high, RunawayLoopGuard, ToolApprovalManager, extend, record_and_check, listed, is_denied,
  is_outside, needs_human, decide, evaluate_tool_execution, resolve_ticket, too_many_duplicates,
}
use amber_claw.Security.Approval.Loops.{
  Call, after, accepted, passes, in_a_row, calls_of, passes-max, passes-duplicates,
}
use amber_claw.Security.Approval.Gate.{in_limits, runs, evaluate_tool_execution_iff}

program : Unit {0}
unfolding Dict.get Dict.set Dict.remove contains truthy evaluate some_rule rule_matches cleared
    clearance_level covers grant_elevation is_elevated revoke_elevation enforce run extend
    record_and_check listed is_denied is_outside needs_human decide evaluate_tool_execution
    resolve_ticket after accepted passes in_a_row in_limits
program = tt

abbrev alice : SubjectAttributes
alice = record {
  subject_id = "alice";
  organization_id = "acme";
  project_id = "apollo";
  roles = "editor" ∷ [];
  clearance = "confidential";
}

abbrev paper : ResourceBoundary
paper = record {
  organization_id = "acme";
  project_id = "apollo";
  workspace_id = "w";
  agent_id = "";
  resource_id = "d1";
  resource_type = "document";
  classification = "internal";
}

abbrev may_read : AbacPolicyRule
may_read = record {
  id = "r1";
  effect = allow;
  actions = "read" ∷ "write" ∷ [];
  resource_types = "*" ∷ [];
  required_roles = "editor" ∷ [];
  min_clearance = some "internal";
  require_same_org = true;
  require_same_project = true;
}

abbrev no_writes : AbacPolicyRule
no_writes = record may_read { id = "r2"; effect = deny; actions = "write" ∷ [] }

abbrev engine : AbacPolicyEngine
engine = record { rules = may_read ∷ no_writes ∷ [] }

reads : evaluate alice "read" paper engine ≡ true
unfolding program
reads = refl

write_denied : enforce alice "write" paper engine ≡ raise access_denied
unfolding program
write_denied = refl

evaluate_iff_example : (evaluate alice "read" paper engine ≡ true) ↔ (
    (alice.organization_id ≡ paper.organization_id)
    × (any (denies alice "read" paper) engine.rules ≡ false)
    × (any (allows alice "read" paper) engine.rules ≡ true))
evaluate_iff_example = evaluate_iff alice "read" paper engine

abbrev grants : JustInTimeElevationManager
grants = record { active_grants = [] }

abbrev granted : JustInTimeElevationManager
granted = (grant_elevation 100 "bob" "admin" 90 "incident" "carol" grants).0

grant_elevation-ends_example :
    ((is_elevated 159 "bob" "admin" granted).1 ≡ ltb 159 (100 + min 60 (max 1 90)))
    × ((is_elevated
          (100 + 60 + 159)
          "bob"
          "admin"
          (run (check 150 "bob" "admin" ∷ revoke "eve" "x" ∷ []) granted)).1
        ≡ false)
grant_elevation-ends_example =
    grant_elevation-ends 100 159 90 "bob" "admin" "incident" "carol"
      (check 150 "bob" "admin" ∷ revoke "eve" "x" ∷ []) grants (tt, (tt, tt))

abbrev guard : RunawayLoopGuard
guard = record {
  max_calls_per_turn = 4;
  max_duplicate_consecutive_calls = 3;
  turn_call_counts = [];
  turn_consecutive = [];
}

abbrev search : Call
search = record { turn = "t"; tool = "search"; hash = "h" }

abbrev fetch : Call
fetch = record { turn = "t"; tool = "fetch"; hash = "h" }

third_refused :
    (record_and_check "t" "search" "h" (after search (after search guard))).1
    ≡ raise too_many_duplicates
unfolding program
third_refused = refl

four_pass : passes "t" (search ∷ fetch ∷ search ∷ fetch ∷ search ∷ fetch ∷ []) guard ≡ 4
unfolding program
four_pass = refl

passes-max_example :
    passes "t" (search ∷ fetch ∷ search ∷ fetch ∷ search ∷ fetch ∷ []) guard
    ≤ 4 - calls_of "t" guard
passes-max_example = passes-max "t" (search ∷ fetch ∷ search ∷ fetch ∷ search ∷ fetch ∷ []) guard

-- The same search again and again, with a call of another turn in between.
abbrev repeated : List Call
repeated = search ∷ record search { turn = "u"; tool = "fetch" } ∷ search ∷ search ∷ []

passes-duplicates_example :
    passes "t" repeated (after search guard)
    ≤ (after search guard).max_duplicate_consecutive_calls
      - 1
      - in_a_row search (after search guard)
passes-duplicates_example =
    passes-duplicates search repeated (after search guard)
      (inl refl, (inr refl, (inl refl, (inl refl, tt))))

abbrev manager : ToolApprovalManager
manager = record {
  policy = record {
    require_human_approval_levels = high ∷ [];
    agent_allowlists = ("bot", "search" ∷ []) ∷ [];
    agent_denylists = ("spy", "*" ∷ []) ∷ [];
  };
  loop_guard = guard;
  pending_tickets = [];
}

evaluate_tool_execution_iff_example :
    (runs (evaluate_tool_execution "T" "h" "search" "bot" high (some "t") true manager).1 ≡ true)
    ↔ ((in_limits "search" "h" (some "t") manager ≡ true)
        × (is_denied manager.policy "bot" "search" ≡ false)
        × (is_outside manager.policy "bot" "search" ≡ false)
        × ((true ≡ true) ⊎ (needs_human manager.policy high ≡ false)))
evaluate_tool_execution_iff_example =
    evaluate_tool_execution_iff "T" "h" "search" "bot" high (some "t") true manager

bot_runs :
    runs (evaluate_tool_execution "T" "h" "search" "bot" low (some "t") false manager).1 ≡ true
unfolding program
bot_runs = refl
