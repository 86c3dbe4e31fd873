-- ===== src/Org/Tests.antt =====
-- Runs of src/amberclaw/org, and its theorems at them.
use text.Mathlib.TextEquality.{eq_iff}
use amber_claw.Base.{
  ◌+◌, ◌≤◌, ◌≡◌, refl, subst, ◌↔◌, ◌⊎◌, Bool, true, false, Option, none, some, String, ok, raise,
  List, [], ◌∷◌, arith, length,
}
use amber_claw.Base.Dict
use amber_claw.Base.Key.{text_key, contains, truthy}
use amber_claw.Org.Permissions
use amber_claw.Org.Permissions.{
  OrgPolicy, admin, department_lead, staff_agent, intern_agent, delegate, cross_dept_call,
  has_either, role_hierarchy_levels, can_delegate_iff, can_delegate-strict, granted,
  default_role_permissions,
}
use amber_claw.Org.Chart.{
  AgentNode, OrgChart, cycle, next_manager, add_subordinate, remove_subordinate, remove_first,
  change, on_manager, walk, creates_cycle, insert_agent, refuse, add_agent, relinked, relink,
  remove_agent, escalate, get_manager, get_agent, get_escalation_path,
}
use amber_claw.Org.Chart.Walk.{creates_cycle_total}
use amber_claw.Org.Chart.Acyclic.{Ends, IsAcyclic, add_agent-IsAcyclic}
use amber_claw.Org.Chart.Removal.{ListsOwn, remove_agent-IsAcyclic}
use amber_claw.Org.Chart.Escalation.{IsKeyed}

program : Unit {0}
unfolding Dict.get Dict.set Dict.remove contains truthy next_manager add_subordinate
    remove_subordinate remove_first change on_manager walk creates_cycle insert_agent refuse
    add_agent relinked relink remove_agent escalate get_manager get_agent get_escalation_path
program = tt

abbrev node : String → Option String → List String → AgentNode
node id manager subs = record {
  id = id;
  name = id;
  role = staff_agent;
  department = "engineering";
  manager_id = manager;
  subordinate_ids = subs;
  custom_permissions = [];
  tenant_id = "default";
}

abbrev policy : OrgPolicy
policy = record { allow_cross_dept_delegation = false; strict_hierarchy_enforcement = true }

abbrev boss_and_a : OrgChart
boss_and_a = record {
  nodes = ("M", node "M" none ("A" ∷ [])) ∷ ("A", node "A" (some "M") []) ∷ [];
  policy = policy;
}

add_a :
    add_agent
      (node "A" (some "M") [])
      (record { nodes = ("M", node "M" none []) ∷ []; policy = policy })
    ≡ (boss_and_a, ok tt)
unfolding program
add_a = refl

add_cycle : add_agent (node "M" (some "A") []) boss_and_a ≡ (boss_and_a, raise cycle)
unfolding program
add_cycle = refl

-- `A` moved from `M` to `X`, and `Y`, the manager of `M`, put under `A`: `M` still lists `A`.
abbrev moved : OrgChart
moved = record {
  nodes =
      ("X", node "X" none ("A" ∷ []))
      ∷ ("M", node "M" (some "Y") ("A" ∷ []))
      ∷ ("A", node "A" (some "X") ("Y" ∷ []))
      ∷ ("Y", node "Y" (some "A") ("M" ∷ []))
      ∷ [];
  policy = policy;
}

-- The calls that lead there, each accepted.
moved_reached :
    let c0 : OrgChart = record { nodes = []; policy = policy } in
    let c1 = (add_agent (node "X" none []) c0).0 in
    let c2 = (add_agent (node "M" (some "Y") []) c1).0 in
    let c3 = (add_agent (node "A" (some "M") []) c2).0 in
    let c4 = (add_agent (node "A" (some "X") []) c3).0 in
    let c5 = add_agent (node "Y" (some "A") ("M" ∷ [])) c4 in c5 ≡ (moved, ok tt)
unfolding program
moved_reached = refl

-- Removing `M` there puts `A` under `Y`, while `Y` is under `A`: a cycle.
removal_makes_cycle :
    let nodes = (remove_agent "M" moved).nodes in
    (next_manager nodes "A" ≡ some "Y") × (next_manager nodes "Y" ≡ some "A")
unfolding program
removal_makes_cycle = (refl, refl)

abbrev no_agents : OrgChart
no_agents = record { nodes = []; policy = policy }

no_agents-IsAcyclic : IsAcyclic no_agents.nodes
unfolding program
no_agents-IsAcyclic x = Ends.top x refl

boss_and_a-IsAcyclic : IsAcyclic boss_and_a.nodes
unfolding program
boss_and_a-IsAcyclic =
    add_agent-IsAcyclic (node "A" (some "M") [])
      (record no_agents { nodes = ("M", node "M" none []) ∷ [] })
      (add_agent-IsAcyclic (node "M" none []) no_agents no_agents-IsAcyclic (ground arith))
      (ground (arith, eq_iff "M" ""))

add_agent-IsAcyclic_example : IsAcyclic (add_agent (node "B" (some "A") []) boss_and_a).0.nodes
add_agent-IsAcyclic_example =
    add_agent-IsAcyclic (node "B" (some "A") []) boss_and_a boss_and_a-IsAcyclic
      (ground (arith, eq_iff "A" ""))

only_a : (x : String) → contains x ("A" ∷ []) ≡ true → "A" ≡ x
unfolding contains
only_a x listed = ground (arith, eq_iff "A" x)

boss_ListsOwn : ListsOwn "M" (node "M" none ("A" ∷ [])) boss_and_a.nodes
unfolding next_manager contains Dict.get
boss_ListsOwn x listed present =
    subst (λ y. next_manager boss_and_a.nodes y ≡ some "M") (only_a x listed) refl

remove_agent-IsAcyclic_example : IsAcyclic (remove_agent "M" boss_and_a).nodes
unfolding Dict.get
remove_agent-IsAcyclic_example =
    remove_agent-IsAcyclic "M" (node "M" none ("A" ∷ [])) boss_and_a refl boss_ListsOwn
      boss_and_a-IsAcyclic

creates_cycle_total_example :
    (b : Bool) × (walk (length boss_and_a.nodes + 1) boss_and_a.nodes ("M" ∷ []) (some "A")
      ≡ some b)
    × (creates_cycle "M" "A" boss_and_a.nodes ≡ b)
creates_cycle_total_example = creates_cycle_total "M" "A" boss_and_a.nodes

boss_and_a-IsKeyed : IsKeyed boss_and_a.nodes
unfolding Dict.get
boss_and_a-IsKeyed k n found = ground (arith, eq_iff "M" k, eq_iff "A" k)

can_delegate_iff_example : (Permissions.can_delegate policy admin staff_agent false [] ≡ true) ↔ (
    (has_either admin [] delegate ≡ true)
    × ((◌≡◌ {A = Bool} false true)
        ⊎ ((◌≡◌ {A = Bool} false true) ⊎ (has_either admin [] cross_dept_call ≡ true)))
    × ((◌≡◌ {A = Bool} true false)
        ⊎ (role_hierarchy_levels staff_agent ≤ role_hierarchy_levels admin)))
can_delegate_iff_example = can_delegate_iff policy admin staff_agent false []
