-- ===== src/Security/Abac.antt =====
-- src/amberclaw/security/abac.py: the policy engine and the just-in-time elevations. Clocks are
-- numbers of minutes; log and audit records are output and left out.
use amber_claw.Base.{
  ℕ, ◌+◌, Bool, true, false, not, ◌&&◌, ◌||◌, Option, none, some, String, Result, ok, raise, leb,
  ltb, min, max, if◌then◌else◌, List, [], ◌∷◌, ◌++◌, any,
}
use amber_claw.Base.Dict
use amber_claw.Base.Dict.{Dict}
use amber_claw.Base.Key.{Key, text_key, ◌==◌, contains, truthy, pair_key}
pub mod Decision
pub mod Elevation

pub data PolicyEffect : Type 0 where
  allow deny : PolicyEffect

pub record ResourceBoundary : Type 0 where
  pub organization_id : String
  pub project_id : String
  pub workspace_id : String
  pub agent_id : String
  pub resource_id : String
  pub resource_type : String
  pub classification : String

pub record SubjectAttributes : Type 0 where
  pub subject_id : String
  pub organization_id : String
  pub project_id : String
  pub roles : List String
  pub clearance : String

pub record AbacPolicyRule : Type 0 where
  pub id : String
  pub effect : PolicyEffect
  pub actions : List String
  pub resource_types : List String
  pub required_roles : List String
  pub min_clearance : Option String
  pub require_same_org : Bool
  pub require_same_project : Bool

-- `CLEARANCE_HIERARCHY.get(name, 0)`
unfoldable pub clearance_level : String → ℕ
clearance_level name =
    if name == "internal"
    then 1
    else if name == "confidential"
    then 2
    else if name == "restricted"
    then 3
    else 0

pub record AbacPolicyEngine : Type 0 where
  pub rules : List AbacPolicyRule

unfoldable pub add_rule : AbacPolicyRule → AbacPolicyEngine → AbacPolicyEngine
add_rule r e = record { rules = e.rules ++ r ∷ [] }

-- `"*" in xs or x in xs`
unfoldable pub covers : String → List String → Bool
covers x xs = contains "*" xs || contains x xs

abbrev pub is_empty : List String → Bool
is_empty [] = true
is_empty (x ∷ xs) = false

-- The clearance check; an empty name is no requirement.
unfoldable pub cleared : String → Option String → Bool
cleared have none = true
cleared have (some need) = not (truthy need) || leb (clearance_level need) (clearance_level have)

-- `_rule_matches`. `require_same_org` is not read.
unfoldable pub rule_matches : AbacPolicyRule → SubjectAttributes → String → ResourceBoundary → Bool
rule_matches rule subject action resource =
    if not (covers action rule.actions)
    then false
    else if not (covers resource.resource_type rule.resource_types)
    then false
    else if rule.require_same_project && not (subject.project_id == resource.project_id)
    then false
    else if not (is_empty rule.required_roles)
        && not (any (λ r. contains r subject.roles) rule.required_roles)
    then false
    else if not (cleared subject.clearance rule.min_clearance)
    then false
    else true

abbrev pub is_deny : PolicyEffect → Bool
is_deny deny = true
is_deny allow = false

-- One of the two loops of `evaluate`: is there a rule of the effect that matches?
unfoldable pub some_rule :
    Bool → List AbacPolicyRule → SubjectAttributes → String → ResourceBoundary → Bool
some_rule denies [] subject action resource = false
some_rule denies (r ∷ rs) subject action resource =
    let hit =
      (if denies then is_deny r.effect else not (is_deny r.effect))
      && rule_matches r subject action resource in
    if hit then true else some_rule denies rs subject action resource

unfoldable pub evaluate : SubjectAttributes → String → ResourceBoundary → AbacPolicyEngine → Bool
evaluate subject action resource e =
    if not (subject.organization_id == resource.organization_id)
    then false
    else if some_rule true e.rules subject action resource
    then false
    else if some_rule false e.rules subject action resource
    then true
    else false

pub data Error : Type 0 where
  access_denied : Error

unfoldable pub enforce :
    SubjectAttributes → String → ResourceBoundary → AbacPolicyEngine → Result Error (Unit {0})
enforce subject action resource e =
    if not (evaluate subject action resource e) then raise access_denied else ok tt

pub record JitElevationToken : Type 0 where
  pub subject_id : String
  pub scope : String
  pub granted_at : ℕ
  pub expires_at : ℕ
  pub approver_id : String
  pub reason : String

pub record JustInTimeElevationManager : Type 0 where
  pub active_grants : Dict (String × String) JitElevationToken

unfoldable pub grant_elevation :
    ℕ
    → String
    → String
    → ℕ
    → String
    → String
    → JustInTimeElevationManager
    → JustInTimeElevationManager × JitElevationToken
grant_elevation now subject scope duration_minutes reason approver m =
    let bounded_duration = min 60 (max 1 duration_minutes) in
    let token : JitElevationToken = record {
      subject_id = subject;
      scope = scope;
      granted_at = now;
      expires_at = now + bounded_duration;
      approver_id = approver;
      reason = reason;
    } in
    (record { active_grants = Dict.set (subject, scope) token m.active_grants }, token)

elevated_entry :
    ℕ
    → String × String
    → JustInTimeElevationManager
    → Option JitElevationToken
    → JustInTimeElevationManager × Bool
elevated_entry now key m none = (m, false)
elevated_entry now key m (some token) =
    if ltb now token.expires_at
    then (m, true)
    else (record { active_grants = Dict.remove key m.active_grants }, false)

-- The printed time is read back unchanged, so its parse does not fail.
unfoldable pub is_elevated :
    ℕ → String → String → JustInTimeElevationManager → JustInTimeElevationManager × Bool
unfolding elevated_entry
is_elevated now subject scope m =
    elevated_entry now (subject, scope) m (Dict.get (subject, scope) m.active_grants)

unfoldable pub revoke_elevation :
    String → String → JustInTimeElevationManager → JustInTimeElevationManager × Bool
revoke_elevation subject scope m =
    if Dict.has (subject, scope) m.active_grants
    then (record { active_grants = Dict.remove (subject, scope) m.active_grants }, true)
    else (m, false)
