-- ===== src/Governance/Policies/Priority.antt =====
-- Which enforcement governance/policies.py chooses among the policies that an action triggers.
use amber_claw.Base.{
  ℕ, ◌≡◌, ◌↔◌, ◌∙◌, ◌≤◌, true, not, List, [], ◌∷◌, ◌++◌, arith, filter, any, max, map, Bool-cases,
  inl, inr,
}
use mathlib.Core.List.{append_assoc, append-nil}
use amber_claw.Base.Text.{Text}
use amber_claw.Governance.Policies.{
  EnforcementAction, allow, deny, require_approval, warn, PolicyRule, PolicyEngine, Tally,
  list_policies, triggers, prioritize, tally, is_deny, evaluate,
}

-- From allowing to denying.
abbrev pub rank : EnforcementAction → ℕ
rank allow = 0
rank warn = 1
rank require_approval = 2
rank deny = 3

abbrev pub highest : List PolicyRule → ℕ
highest [] = 0
highest (p ∷ ps) = max (rank p.enforcement) (highest ps)

highest-le : (ps : List PolicyRule) → highest ps ≤ 3
highest-le [] = omega arith
highest-le (p ∷ ps) = ground (arith, highest-le ps)

rank-prioritize : (a b : EnforcementAction) → rank (prioritize a b) ≡ max (rank a) (rank b)
unfolding prioritize
rank-prioritize a b = ground arith

-- The variables after a policy that triggers.
abbrev noted : PolicyRule → Tally → Tally
noted p t = record {
  triggered = t.triggered ++ p.policy_id ∷ [];
  names = t.names ++ p.name ∷ [];
  final_enforcement = prioritize p.enforcement t.final_enforcement;
}

rank-tally :
    (action content : Text) (cost : ℕ) (ps : List PolicyRule) (t : Tally)
    → rank (tally action content cost ps t).final_enforcement
      ≡ max (highest (filter (triggers action content cost) ps)) (rank t.final_enforcement)
unfolding tally
rank-tally action content cost [] t = omega arith
rank-tally action content cost (p ∷ ps) t = elim (Bool-cases (triggers action content cost p)) [
  | inl hit ↦
      rw (hit, tally)
        (omega (
          arith,
          rank-tally action content cost ps (noted p t),
          rank-prioritize p.enforcement t.final_enforcement,
        ))
  | inr miss ↦ rw (miss, tally) (rank-tally action content cost ps t)
]

triggered-tally :
    (action content : Text) (cost : ℕ) (ps : List PolicyRule) (t : Tally)
    → (tally action content cost ps t).triggered
      ≡ t.triggered ++ map (λ p. p.policy_id) (filter (triggers action content cost) ps)
unfolding tally
triggered-tally action content cost [] t = simp append-nil
triggered-tally action content cost (p ∷ ps) t =
    elim (Bool-cases (triggers action content cost p)) [
      | inl hit ↦
          rw (hit, tally)
            (triggered-tally action content cost ps (noted p t)
              ∙ append_assoc t.triggered (p.policy_id ∷ []) _)
      | inr miss ↦ rw (miss, tally) (triggered-tally action content cost ps t)
    ]

-- The enforcement of an evaluation is the strictest of the policies that trigger, whatever their
-- order, with denial above approval above a warning; `allow` if none triggers. The policies reported
-- are exactly those that trigger, in the order of the dictionary.
pub evaluate-strictest :
    (action content : Text) (cost : ℕ) (e : PolicyEngine)
    → let hits = filter (triggers action content cost) (list_policies e) in
      (rank (evaluate action content cost e).enforcement ≡ highest hits)
      × ((evaluate action content cost e).triggered_policies ≡ map (λ p. p.policy_id) hits)
unfolding evaluate
evaluate-strictest action content cost e =
    let start : Tally = record { triggered = []; names = []; final_enforcement = allow } in
    (
      omega (arith, rank-tally action content cost (list_policies e) start),
      triggered-tally action content cost (list_policies e) start,
    )

any_deny : (ps : List PolicyRule) → (any (λ p. is_deny p.enforcement) ps ≡ true) ↔ (highest ps ≡ 3)
any_deny [] = ground arith
any_deny (p ∷ ps) = (
  λ h. ground (arith, any_deny ps, highest-le ps),
  λ h. ground (arith, any_deny ps, highest-le ps),
)

-- An action is allowed exactly when no policy that triggers denies it.
evaluate-is_allowed :
    (action content : Text) (cost : ℕ) (e : PolicyEngine)
    → (evaluate action content cost e).is_allowed
      ≡ not (
          any
            (λ p. is_deny p.enforcement)
            (filter (triggers action content cost) (list_policies e)))
unfolding evaluate
evaluate-is_allowed action content cost e =
    let start : Tally = record { triggered = []; names = []; final_enforcement = allow } in
    let hits = filter (triggers action content cost) (list_policies e) in
    ground (arith, rank-tally action content cost (list_policies e) start, any_deny hits)
