-- ===== src/Org/Chart.antt =====
-- src/amberclaw/org/chart.py and agent_node.py. `OrgChart` is a record over the dictionary `nodes`;
-- a method that changes a node in place stores the changed node. `capabilities`, the budget and
-- `metadata`, which the chart does not read, are left out.
use amber_claw.Base.{
  ℕ, zero, suc, ◌+◌, Bool, true, false, not, ◌&&◌, ◌||◌, Option, none, some, String, Result, ok,
  raise, if◌then◌else◌, List, [], ◌∷◌, ◌++◌, filter, length,
}
use amber_claw.Base.Dict
use amber_claw.Base.Dict.{Dict, get_or}
use amber_claw.Base.Key.{Key, text_key, ◌==◌, contains, truthy}
use amber_claw.Org.Permissions
use amber_claw.Org.Permissions.{OrgRole, OrgPermission, OrgPolicy}
pub mod Walk
pub mod Acyclic
pub mod Removal
pub mod Escalation

pub record AgentNode : Type 0 where
  pub id : String
  pub name : String
  pub role : OrgRole
  pub department : String
  pub manager_id : Option String
  pub subordinate_ids : List String
  pub custom_permissions : List OrgPermission
  pub tenant_id : String

abbrev pub Nodes : Type 0
Nodes = Dict String AgentNode

pub record OrgChart : Type 0 where
  pub nodes : Nodes
  pub policy : OrgPolicy

pub data Error : Type 0 where
  own_manager cycle : Error

unfoldable pub add_subordinate : String → AgentNode → AgentNode
add_subordinate sub n =
    if not (contains sub n.subordinate_ids) && not (sub == n.id)
    then record n { subordinate_ids = n.subordinate_ids ++ sub ∷ [] }
    else n

-- `list.remove`: the first occurrence.
unfoldable pub remove_first : String → List String → List String
remove_first s [] = []
remove_first s (x ∷ xs) = if x == s then xs else x ∷ remove_first s xs

unfoldable pub remove_subordinate : String → AgentNode → AgentNode
remove_subordinate sub n =
    if contains sub n.subordinate_ids
    then record n { subordinate_ids = remove_first sub n.subordinate_ids }
    else n

-- `if manager_id`
abbrev pub is_given : Option String → Bool
is_given none = false
is_given (some s) = truthy s

-- A change of the node under a key, where there is one.
on_node : String → (AgentNode → AgentNode) → Option AgentNode → Nodes → Nodes
on_node k f none nodes = nodes
on_node k f (some n) nodes = Dict.set k (f n) nodes

unfoldable pub change : String → (AgentNode → AgentNode) → Nodes → Nodes
unfolding on_node
change k f nodes = on_node k f (Dict.get k nodes) nodes

-- `if manager_id and manager_id in self.nodes: self.nodes[manager_id]...`
unfoldable pub on_manager : Option String → (AgentNode → AgentNode) → Nodes → Nodes
on_manager none f nodes = nodes
on_manager (some m) f nodes = if truthy m then change m f nodes else nodes

abbrev pub manager_id_of : Option AgentNode → Option String
manager_id_of none = none
manager_id_of (some n) = n.manager_id

-- `manager_node.manager_id if manager_node else None`, of the node under an ID.
unfoldable pub next_manager : Nodes → String → Option String
next_manager nodes x = manager_id_of (Dict.get x nodes)

-- The `while` loop of `_creates_cycle`, on fuel; `none` is fuel run out.
unfoldable pub walk : ℕ → Nodes → List String → Option String → Option Bool
walk fuel nodes visited none = some false
walk zero nodes visited (some c) = none
walk (suc fuel) nodes visited (some c) =
    let rest = walk fuel nodes (c ∷ visited) (next_manager nodes c) in
    if contains c visited then some true else rest

unfoldable pub creates_cycle : String → String → Nodes → Bool
creates_cycle node_id manager_id nodes =
    get_or true (walk (length nodes + 1) nodes (node_id ∷ []) (some manager_id))

-- The guards of `add_agent`.
unfoldable pub refuse : AgentNode → Option String → Nodes → Option Error
refuse agent none nodes = none
refuse agent (some m) nodes =
    if not (truthy m)
    then none
    else if m == agent.id
    then some own_manager
    else if creates_cycle agent.id m nodes
    then some cycle
    else none

unfoldable pub insert_agent : AgentNode → Nodes → Nodes
insert_agent agent nodes =
    on_manager agent.manager_id (add_subordinate agent.id) (Dict.set agent.id agent nodes)

add_checked : AgentNode → OrgChart → Option Error → OrgChart × Result Error (Unit {0})
add_checked agent c (some e) = (c, raise e)
add_checked agent c none = (record c { nodes = insert_agent agent c.nodes }, ok tt)

unfoldable pub add_agent : AgentNode → OrgChart → OrgChart × Result Error (Unit {0})
unfolding add_checked
add_agent agent c = add_checked agent c (refuse agent agent.manager_id c.nodes)

-- The body of the loop over the subordinates of a removed agent.
unfoldable pub relinked : Option String → String → Nodes → Nodes
relinked manager sub nodes =
    if Dict.has sub nodes
    then on_manager manager (add_subordinate sub)
        (change sub (λ n. record n { manager_id = manager }) nodes)
    else nodes

unfoldable pub relink : Option String → List String → Nodes → Nodes
relink manager [] nodes = nodes
relink manager (sub ∷ subs) nodes = relink manager subs (relinked manager sub nodes)

remove_found : String → OrgChart → Option AgentNode → OrgChart
remove_found agent_id c none = c
remove_found agent_id c (some target) = record c {
  nodes =
      relink target.manager_id target.subordinate_ids
        (on_manager target.manager_id (remove_subordinate agent_id) (Dict.remove agent_id c.nodes));
}

unfoldable pub remove_agent : String → OrgChart → OrgChart
unfolding remove_found
remove_agent agent_id c = remove_found agent_id c (Dict.get agent_id c.nodes)

unfoldable pub get_agent : String → OrgChart → Option AgentNode
get_agent agent_id c = Dict.get agent_id c.nodes

manager_of : OrgChart → Option String → Option AgentNode
manager_of c none = none
manager_of c (some m) = if truthy m then Dict.get m c.nodes else none

unfoldable pub get_manager : String → OrgChart → Option AgentNode
unfolding manager_of
get_manager agent_id c = manager_of c (manager_id_of (get_agent agent_id c))

unfoldable pub get_department_agents : String → String → OrgChart → List AgentNode
get_department_agents department tenant c =
    filter (λ n. n.department == department && n.tenant_id == tenant) (Dict.values c.nodes)

delegate_between : OrgChart → Option AgentNode → Option AgentNode → Bool
delegate_between c none to_agent = false
delegate_between c (some f) none = false
delegate_between c (some f) (some t) =
    if not (f.tenant_id == t.tenant_id)
    then false
    else Permissions.can_delegate c.policy f.role t.role (f.department == t.department)
        f.custom_permissions

unfoldable pub can_delegate : String → String → OrgChart → Bool
unfolding delegate_between
can_delegate from_id to_id c = delegate_between c (get_agent from_id c) (get_agent to_id c)

-- The `while` loop of `get_escalation_path`, on fuel; `none` is fuel run out.
unfoldable pub escalate :
    ℕ → OrgChart → List String → List AgentNode → Option AgentNode → Option (List AgentNode)
escalate fuel c visited path none = some path
escalate zero c visited path (some n) = none
escalate (suc fuel) c visited path (some n) =
    let rest = escalate fuel c (n.id ∷ visited) (path ++ n ∷ []) (get_manager n.id c) in
    if contains n.id visited then some path else rest

unfoldable pub get_escalation_path : String → OrgChart → List AgentNode
get_escalation_path agent_id c =
    get_or [] (escalate (length c.nodes + 1) c (agent_id ∷ []) [] (get_manager agent_id c))
