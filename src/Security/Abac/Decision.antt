-- ===== src/Security/Abac/Decision.antt =====
-- The decision of security/abac.py: denial first, and no dependence on the order of the rules.
use mathlib.Core.Bool.{Bool-set}
use mathlib.Core.List.{Perm, Permᴰ}
use mathlib.Core.Logic.{∥∥₁_elim}
use text.Mathlib.TextEquality.{eq_iff}
use amber_claw.Base.{
  ◌≡◌, refl, ◌↔◌, ◌∙◌, Bool, true, false, not, ◌&&◌, ◌||◌, String, List, [], ◌∷◌, arith, any,
}
use amber_claw.Base.Key.{text_key}
use amber_claw.Security.Abac.{
  SubjectAttributes, ResourceBoundary, AbacPolicyRule, AbacPolicyEngine, is_deny, rule_matches,
  some_rule, evaluate,
}

abbrev pub denies : SubjectAttributes → String → ResourceBoundary → AbacPolicyRule → Bool
denies subject action resource r = is_deny r.effect && rule_matches r subject action resource

abbrev pub allows : SubjectAttributes → String → ResourceBoundary → AbacPolicyRule → Bool
allows subject action resource r = not (is_deny r.effect) && rule_matches r subject action resource

some_rule-denies :
    (rs : List AbacPolicyRule) (subject : SubjectAttributes) (action : String)
    (resource : ResourceBoundary)
    → some_rule true rs subject action resource ≡ any (denies subject action resource) rs
unfolding some_rule
some_rule-denies [] subject action resource = refl
some_rule-denies (r ∷ rs) subject action resource =
    ground (arith, some_rule-denies rs subject action resource)

some_rule-allows :
    (rs : List AbacPolicyRule) (subject : SubjectAttributes) (action : String)
    (resource : ResourceBoundary)
    → some_rule false rs subject action resource ≡ any (allows subject action resource) rs
unfolding some_rule
some_rule-allows [] subject action resource = refl
some_rule-allows (r ∷ rs) subject action resource =
    ground (arith, some_rule-allows rs subject action resource)

-- Access is granted exactly when subject and resource are of one organization, no rule that denies
-- matches, and some rule that allows does: by default access is denied, and denial overrides.
pub evaluate_iff :
    (subject : SubjectAttributes) (action : String) (resource : ResourceBoundary)
    (e : AbacPolicyEngine)
    → (evaluate subject action resource e ≡ true) ↔ (
        (subject.organization_id ≡ resource.organization_id)
        × (any (denies subject action resource) e.rules ≡ false)
        × (any (allows subject action resource) e.rules ≡ true))
unfolding evaluate
evaluate_iff subject action resource e = ground (
  arith,
  eq_iff subject.organization_id resource.organization_id,
  some_rule-denies e.rules subject action resource,
  some_rule-allows e.rules subject action resource,
)

or_left_comm : (x y z : Bool) → x || (y || z) ≡ y || (x || z)
or_left_comm x y z = ground arith

any-Permᴰ :
    (p : AbacPolicyRule → Bool) {rs qs : List AbacPolicyRule} → Permᴰ rs qs → any p rs ≡ any p qs
any-Permᴰ p Permᴰ.nil = refl
any-Permᴰ p (Permᴰ.cons e t) = cc (e, any-Permᴰ p t)
any-Permᴰ p (Permᴰ.swap {a} {b} {a'} {b'} {l} e f) = or_left_comm (p a) (p b) (any p l) ∙ cc (e, f)
any-Permᴰ p (Permᴰ.trans s t) = any-Permᴰ p s ∙ any-Permᴰ p t

any-perm :
    (p : AbacPolicyRule → Bool) {rs qs : List AbacPolicyRule} → Perm rs qs → any p rs ≡ any p qs
any-perm p s = ∥∥₁_elim s (Bool-set _ _) (any-Permᴰ p)

-- The decision does not depend on the order of the rules.
pub evaluate-perm :
    (subject : SubjectAttributes) (action : String) (resource : ResourceBoundary)
    (e f : AbacPolicyEngine)
    → Perm e.rules f.rules
    → evaluate subject action resource e ≡ evaluate subject action resource f
unfolding evaluate
evaluate-perm subject action resource e f s = ground (
  arith,
  some_rule-denies e.rules subject action resource,
  some_rule-allows e.rules subject action resource,
  some_rule-denies f.rules subject action resource,
  some_rule-allows f.rules subject action resource,
  any-perm (denies subject action resource) s,
  any-perm (allows subject action resource) s,
)
