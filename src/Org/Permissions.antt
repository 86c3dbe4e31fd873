-- ===== src/Org/Permissions.antt =====
-- src/amberclaw/org/permissions.py. A set of permissions is its test of membership, in a table.
use amber_claw.Base.{
  ℕ, ◌≤◌, ◌≡◌, ◌↔◌, ◌⊎◌, Bool, true, false, not, ◌&&◌, ◌||◌, List, [], ◌∷◌, arith, leb,
  if◌then◌else◌,
}

pub data OrgRole : Type 0 where
  admin department_lead staff_agent specialist_agent intern_agent : OrgRole

pub data OrgPermission : Type 0 where
  delegate approve_budget cross_dept_call execute_system read_sensitive manage_org : OrgPermission

-- `ROLE_HIERARCHY_LEVELS`
abbrev pub role_hierarchy_levels : OrgRole → ℕ
role_hierarchy_levels admin = 100
role_hierarchy_levels department_lead = 80
role_hierarchy_levels staff_agent = 60
role_hierarchy_levels specialist_agent = 40
role_hierarchy_levels intern_agent = 20

-- `DEFAULT_ROLE_PERMISSIONS`
unfoldable pub default_role_permissions : OrgRole → List OrgPermission
default_role_permissions admin =
    delegate ∷ approve_budget ∷ cross_dept_call ∷ execute_system ∷ read_sensitive ∷ manage_org ∷ []
default_role_permissions department_lead =
    delegate ∷ approve_budget ∷ cross_dept_call ∷ read_sensitive ∷ []
default_role_permissions staff_agent = delegate ∷ read_sensitive ∷ []
default_role_permissions specialist_agent = delegate ∷ []
default_role_permissions intern_agent = []

abbrev pub permission_index : OrgPermission → ℕ
permission_index delegate = 0
permission_index approve_budget = 1
permission_index cross_dept_call = 2
permission_index execute_system = 3
permission_index read_sensitive = 4
permission_index manage_org = 5

unfoldable pub same_permission : OrgPermission → OrgPermission → Bool
same_permission p q =
    leb (permission_index p) (permission_index q) && leb (permission_index q) (permission_index p)

-- `permission in perms`
unfoldable pub granted : OrgPermission → List OrgPermission → Bool
unfolding same_permission
granted p [] = false
granted p (q ∷ qs) = same_permission q p || granted p qs

pub record OrgPolicy : Type 0 where
  pub allow_cross_dept_delegation : Bool
  pub strict_hierarchy_enforcement : Bool

unfoldable pub has_permission : OrgRole → OrgPermission → Bool
has_permission role p = granted p (default_role_permissions role)

-- Membership in `all_perms`, the union of the role's and the custom permissions.
unfoldable pub has_either : OrgRole → List OrgPermission → OrgPermission → Bool
has_either role custom p = granted p (default_role_permissions role) || granted p custom

unfoldable pub can_delegate : OrgPolicy → OrgRole → OrgRole → Bool → List OrgPermission → Bool
can_delegate policy from_role to_role same_department custom =
    if not (has_either from_role custom delegate)
    then false
    else if not same_department
        && not (policy.allow_cross_dept_delegation || has_either from_role custom cross_dept_call)
    then false
    else if policy.strict_hierarchy_enforcement
        && not (leb (role_hierarchy_levels to_role) (role_hierarchy_levels from_role))
    then false
    else true

-- A role may delegate exactly when it has that permission, by itself or as a custom one; the target
-- is in the department, or the policy or a permission lets it cross departments; and, where the
-- hierarchy is enforced, its level is not below the target's.
pub can_delegate_iff :
    (policy : OrgPolicy) (from_role to_role : OrgRole) (same_department : Bool)
    (custom : List OrgPermission)
    → (can_delegate policy from_role to_role same_department custom ≡ true) ↔ (
        (has_either from_role custom delegate ≡ true)
        × ((same_department ≡ true)
            ⊎ ((policy.allow_cross_dept_delegation ≡ true)
                ⊎ (has_either from_role custom cross_dept_call ≡ true)))
        × ((policy.strict_hierarchy_enforcement ≡ false)
            ⊎ (role_hierarchy_levels to_role ≤ role_hierarchy_levels from_role)))
unfolding can_delegate
can_delegate_iff policy from_role to_role same_department custom = ground arith

-- Under a strict policy without cross-department delegation, and with no custom permissions, an
-- intern delegates to nobody, only an admin delegates to an admin, and across departments only an
-- admin or a lead delegates.
pub can_delegate-strict :
    (from_role to_role : OrgRole) (same_department : Bool)
    → can_delegate
        (record { allow_cross_dept_delegation = false; strict_hierarchy_enforcement = true })
        from_role
        to_role
        same_department
        []
      ≡ true
    → (40 ≤ role_hierarchy_levels from_role)
      × (role_hierarchy_levels to_role ≤ role_hierarchy_levels from_role)
      × ((same_department ≡ true) ⊎ (80 ≤ role_hierarchy_levels from_role))
unfolding can_delegate has_either granted default_role_permissions
can_delegate-strict from_role to_role same_department h = ground arith
