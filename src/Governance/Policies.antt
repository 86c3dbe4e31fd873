-- ===== src/Governance/Policies.antt =====
-- src/amberclaw/governance/policies.py. `PolicyEngine` is a record over the dictionary `_policies`.
-- Texts that are searched are lists of code points, lowered in ASCII; costs are numbers of a small
-- unit. Of the reasons, which are built for a reader, the policies' names are kept.
use amber_claw.Base.{
  ℕ, ◌+◌, Bool, true, false, not, ◌&&◌, ◌||◌, Option, none, some, String, leb, ltb, if◌then◌else◌,
  List, [], ◌∷◌, ◌++◌, any,
}
use amber_claw.Base.Dict
use amber_claw.Base.Dict.{Dict, is_some}
use amber_claw.Base.Key.{text_key}
use amber_claw.Base.Text.{Text, lower, text_eq, occurs}
pub mod Priority

pub data EnforcementAction : Type 0 where
  allow deny require_approval warn : EnforcementAction

pub record PolicyRule : Type 0 where
  pub policy_id : String
  pub name : String
  pub target_actions : List Text
  pub max_cost : Option ℕ
  pub forbidden_tokens : List Text
  pub enforcement : EnforcementAction
  pub enabled : Bool

pub record PolicyEvaluationResult : Type 0 where
  pub is_allowed : Bool
  pub requires_approval : Bool
  pub enforcement : EnforcementAction
  pub triggered_policies : List String
  pub reasons : List String

pub record PolicyEngine : Type 0 where
  pub policies : Dict String PolicyRule

unfoldable pub add_policy : PolicyRule → PolicyEngine → PolicyEngine
add_policy p e = record { policies = Dict.set p.policy_id p e.policies }

unfoldable pub remove_policy : String → PolicyEngine → PolicyEngine × Bool
remove_policy id e =
    (record { policies = Dict.remove id e.policies }, is_some (Dict.get id e.policies))

unfoldable pub list_policies : PolicyEngine → List PolicyRule
list_policies e = Dict.values e.policies

abbrev pub over_cost : ℕ → Option ℕ → Bool
over_cost cost none = false
over_cost cost (some limit) = ltb limit cost

abbrev pub is_empty {ℓ} : {A : Type ℓ} → List A → Bool
is_empty [] = true
is_empty (x ∷ xs) = false

-- `*` is the code point 42.
abbrev pub star : Text
star = 42 ∷ []

unfoldable pub targets : Text → PolicyRule → Bool
targets action p =
    any (λ t. text_eq t star) p.target_actions
    || any (λ t. text_eq (lower t) (lower action)) p.target_actions

-- The test of the loop's body: enabled, targeted, and a constraint hit or none to hit.
unfoldable pub triggers : Text → Text → ℕ → PolicyRule → Bool
triggers action content cost p =
    let token_hit = any (λ t. occurs (lower t) (lower content)) p.forbidden_tokens in
    let cost_hit = over_cost cost p.max_cost in
    let has_constraints = not (is_empty p.forbidden_tokens) || is_some p.max_cost in
    p.enabled && (targets action p && (not has_constraints || (token_hit || cost_hit)))

-- The `if`/`elif` over the enforcement so far.
unfoldable pub prioritize : EnforcementAction → EnforcementAction → EnforcementAction
prioritize deny final = deny
prioritize require_approval deny = deny
prioritize require_approval _ = require_approval
prioritize warn allow = warn
prioritize warn final = final
prioritize allow final = final

-- The variables of the loop.
pub record Tally : Type 0 where
  pub triggered : List String
  pub names : List String
  pub final_enforcement : EnforcementAction

unfoldable pub tally : Text → Text → ℕ → List PolicyRule → Tally → Tally
tally action content cost [] t = t
tally action content cost (p ∷ ps) t = tally action content cost ps (
    if triggers action content cost p
    then record {
      triggered = t.triggered ++ p.policy_id ∷ [];
      names = t.names ++ p.name ∷ [];
      final_enforcement = prioritize p.enforcement t.final_enforcement;
    }
    else t)

abbrev pub is_deny : EnforcementAction → Bool
is_deny deny = true
is_deny _ = false

abbrev pub is_approval : EnforcementAction → Bool
is_approval require_approval = true
is_approval _ = false

unfoldable pub evaluate : Text → Text → ℕ → PolicyEngine → PolicyEvaluationResult
evaluate action content cost e =
    let t =
      tally action content cost (list_policies e)
        (record { triggered = []; names = []; final_enforcement = allow }) in
    record {
      is_allowed = not (is_deny t.final_enforcement);
      requires_approval = is_approval t.final_enforcement;
      enforcement = t.final_enforcement;
      triggered_policies = t.triggered;
      reasons = t.names;
    }
