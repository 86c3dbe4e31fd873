-- ===== src/Org/Chart/Acyclic.antt =====
-- Adding an agent in org/chart.py keeps every chain of managers finite.
use text.Mathlib.TextEquality.{eq_iff}
use amber_claw.Base.{
  ◌+◌, ◌≡◌, refl, ◌≢◌, sym, ◌∙◌, ap, false, Option, none, some, String, [], ◌∷◌, arith,
  Option-cases, Bool-cases, inl, inr, if◌then◌else◌, subst, length,
}
use amber_claw.Base.Dict
use amber_claw.Base.Dict.{get-set}
use amber_claw.Base.Key.{text_key, ◌==◌, contains, truthy}
use amber_claw.Org.Chart.{
  AgentNode, OrgChart, Nodes, next_manager, add_subordinate, change, on_manager, insert_agent,
  refuse, add_agent, walk,
}
use amber_claw.Org.Chart.Walk.{Avoids, creates_cycle_total, walk-Avoids}

-- From `x` the chain of managers ends.
pub data Ends (nodes : Nodes) : String → Type 0 where
  top : (x : String) → next_manager nodes x ≡ none → Ends nodes x
  up : (x y : String) → next_manager nodes x ≡ some y → Ends nodes y → Ends nodes x

abbrev pub IsAcyclic : Nodes → Type 0
IsAcyclic nodes = (x : String) → Ends nodes x

pub next_manager-set :
    (k : String) (n : AgentNode) (nodes : Nodes) (x : String)
    → next_manager (Dict.set k n nodes) x ≡ (if k == x then n.manager_id else next_manager nodes x)
unfolding next_manager
next_manager-set k n nodes x = ground (arith, get-set k x n nodes)

same_manager :
    (k : String) (m n : AgentNode) (nodes : Nodes) (x : String)
    → Dict.get k nodes ≡ some n
    → m.manager_id ≡ n.manager_id
    → (if k == x then m.manager_id else next_manager nodes x) ≡ next_manager nodes x
unfolding next_manager
same_manager k m n nodes x found same = ground (arith, eq_iff k x)

-- A change of a node that keeps its manager changes no chain.
pub next_manager-change :
    (k : String) (f : AgentNode → AgentNode) (nodes : Nodes) (x : String)
    → ((n : AgentNode) → (f n).manager_id ≡ n.manager_id)
    → next_manager (change k f nodes) x ≡ next_manager nodes x
unfolding change
next_manager-change k f nodes x keeps = elim (Option-cases (Dict.get k nodes)) [
  | inl missing ↦ rw (missing, change)
  | inr (n, found) ↦
      rw (found, change)
        (next_manager-set k (f n) nodes x ∙ same_manager k (f n) n nodes x found (keeps n))
]

pub add_subordinate_keeps :
    (sub : String) (n : AgentNode) → (add_subordinate sub n).manager_id ≡ n.manager_id
unfolding add_subordinate
add_subordinate_keeps sub n = ground arith

pub next_manager-on_manager :
    (m : Option String) (f : AgentNode → AgentNode) (nodes : Nodes) (x : String)
    → ((n : AgentNode) → (f n).manager_id ≡ n.manager_id)
    → next_manager (on_manager m f nodes) x ≡ next_manager nodes x
unfolding on_manager
next_manager-on_manager none f nodes x keeps = refl
next_manager-on_manager (some m) f nodes x keeps =
    ground (arith, next_manager-change m f nodes x keeps)

next_manager-insert :
    (a : AgentNode) (nodes : Nodes) (x : String)
    → next_manager (insert_agent a nodes) x
      ≡ (if a.id == x then a.manager_id else next_manager nodes x)
unfolding insert_agent
next_manager-insert a nodes x =
    next_manager-on_manager a.manager_id (add_subordinate a.id) (Dict.set a.id a nodes) x
      (add_subordinate_keeps a.id)
    ∙ next_manager-set a.id a nodes x

next_manager-insert_ne :
    (a : AgentNode) (nodes : Nodes) (x : String)
    → x ≢ a.id
    → next_manager (insert_agent a nodes) x ≡ next_manager nodes x
next_manager-insert_ne a nodes x ne = ground (arith, next_manager-insert a nodes x, eq_iff a.id x)

Avoids-Ends :
    (a : AgentNode) (nodes : Nodes) (x : String)
    → Avoids nodes a.id x
    → Ends (insert_agent a nodes) x
Avoids-Ends a nodes x (Avoids.top _ ne last) =
    Ends.top x (next_manager-insert_ne a nodes x ne ∙ last)
Avoids-Ends a nodes x (Avoids.up _ y ne next rest) =
    Ends.up x y (next_manager-insert_ne a nodes x ne ∙ next) (Avoids-Ends a nodes y rest)

Ends-insert :
    (a : AgentNode) (nodes : Nodes) (x : String)
    → Ends (insert_agent a nodes) a.id
    → Ends nodes x
    → Ends (insert_agent a nodes) x
Ends-insert a nodes x self (Ends.top _ last) = elim (Bool-cases (a.id == x)) [
  | inl same ↦ subst (Ends (insert_agent a nodes)) (ground (arith, eq_iff a.id x)) self
  | inr other ↦ Ends.top x (ground (arith, next_manager-insert a nodes x))
]
Ends-insert a nodes x self (Ends.up _ y next rest) = elim (Bool-cases (a.id == x)) [
  | inl same ↦ subst (Ends (insert_agent a nodes)) (ground (arith, eq_iff a.id x)) self
  | inr other ↦
      Ends.up x y (ground (arith, next_manager-insert a nodes x)) (Ends-insert a nodes y self rest)
]

next_manager-insert_self :
    (a : AgentNode) (nodes : Nodes) → next_manager (insert_agent a nodes) a.id ≡ a.manager_id
next_manager-insert_self a nodes =
    ground (arith, next_manager-insert a nodes a.id, eq_iff a.id a.id)

refuse_passed :
    (a : AgentNode) (nodes : Nodes) (m : String)
    → some m ≢ some ""
    → refuse a (some m) nodes ≡ none
    → walk (length nodes + 1) nodes (a.id ∷ []) (some m) ≡ some false
unfolding refuse truthy
refuse_passed a nodes m given passed =
    let (b, ends, answer) = creates_cycle_total a.id m nodes in
    ends ∙ ap some (sym answer ∙ ground (arith, eq_iff m ""))

-- An agent whose manager passes the guards has a finite chain once it is stored.
self-Ends :
    (a : AgentNode) (nodes : Nodes) (m : Option String)
    → a.manager_id ≡ m
    → m ≢ some ""
    → refuse a m nodes ≡ none
    → Ends (insert_agent a nodes) a.id
unfolding refuse
self-Ends a nodes none same given passed = Ends.top a.id (next_manager-insert_self a nodes ∙ same)
self-Ends a nodes (some m) same given passed =
    Ends.up a.id m (next_manager-insert_self a nodes ∙ same) (
      Avoids-Ends a nodes m (
        walk-Avoids (length nodes + 1) nodes (a.id ∷ []) a.id m
          (unfold contains in ground (arith, eq_iff a.id a.id))
          (refuse_passed a nodes m given passed)))

-- In a chart where every chain of managers ends, adding or updating an agent keeps that so, provided
-- that its manager is not the empty text, which the guards do not check.
pub add_agent-IsAcyclic :
    (a : AgentNode) (c : OrgChart)
    → IsAcyclic c.nodes
    → a.manager_id ≢ some ""
    → IsAcyclic (add_agent a c).0.nodes
unfolding add_agent
add_agent-IsAcyclic a c h given = elim (Option-cases (refuse a a.manager_id c.nodes)) [
  | inl passed ↦
      rw (passed, add_agent)
        (λ x. Ends-insert a c.nodes x (self-Ends a c.nodes a.manager_id refl given passed) (h x))
  | inr (e, refused) ↦ rw (refused, add_agent) h
]
