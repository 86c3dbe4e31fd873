-- ===== src/Org/Chart/Escalation.antt =====
-- The escalation path of org/chart.py: the loop over the managers ends.
use amber_claw.Base.{
  ℕ, zero, suc, ◌+◌, ◌<◌, ◌≡◌, refl, sym, subst, Option, none, some, String, List, [], ◌∷◌, ◌++◌,
  arith, length, Option-cases, Bool-cases, inl, inr,
}
use amber_claw.Base.Dict
use amber_claw.Base.Key.{text_key, contains}
use amber_claw.Org.Chart.{
  AgentNode, OrgChart, Nodes, manager_id_of, get_agent, get_manager, escalate, get_escalation_path,
}
use amber_claw.Org.Chart.Walk.{unvisited, unvisited-lt, unvisited-le-length}

-- Every node is stored under its own ID.
abbrev pub IsKeyed : Nodes → Type 0
IsKeyed nodes = (k : String) (n : AgentNode) → Dict.get k nodes ≡ some n → n.id ≡ k

-- A manager that is found is stored under its own ID.
manager_stored :
    (x : String) (c : OrgChart) (n : AgentNode)
    → IsKeyed c.nodes
    → get_manager x c ≡ some n
    → Dict.get n.id c.nodes ≡ some n
unfolding get_manager get_agent
manager_stored x c n keyed e = elim (Option-cases (manager_id_of (Dict.get x c.nodes))) [
  | inl none' ↦ absurd (ground (arith, none', e))
  | inr (m, some') ↦
      let found : Dict.get m c.nodes ≡ some n = ground (arith, some', e) in
      subst (λ k. Dict.get k c.nodes ≡ some n) (sym (keyed m n found)) found
]

escalate_total :
    (fuel : ℕ) (c : OrgChart) (visited : List String) (path : List AgentNode) (o : Option AgentNode)
    → IsKeyed c.nodes
    → ((n : AgentNode) → o ≡ some n → Dict.get n.id c.nodes ≡ some n)
    → unvisited visited c.nodes < fuel
    → (p : List AgentNode) × (escalate fuel c visited path o ≡ some p)
unfolding escalate
escalate_total fuel c visited path none keyed stored h = (path, refl)
escalate_total zero c visited path (some n) keyed stored h = absurd (omega arith)
escalate_total (suc fuel) c visited path (some n) keyed stored h =
    elim (Bool-cases (contains n.id visited)) [
      | inl seen ↦ (path, rw seen)
      | inr new ↦ rw new (
          escalate_total fuel c (n.id ∷ visited) (path ++ n ∷ []) (get_manager n.id c) keyed
            (λ k e. manager_stored n.id c k keyed e)
            (omega (arith, unvisited-lt n.id visited c.nodes n (stored n refl) new)))
    ]

-- In a chart whose nodes are stored under their own IDs the loop over the managers ends within its
-- fuel, also where the managers form a cycle, and its result is the escalation path.
pub get_escalation_path_total :
    (id : String) (c : OrgChart)
    → IsKeyed c.nodes
    → escalate (length c.nodes + 1) c (id ∷ []) [] (get_manager id c)
      ≡ some (get_escalation_path id c)
unfolding get_escalation_path
get_escalation_path_total id c keyed =
    let (p, ends) =
      escalate_total (length c.nodes + 1) c (id ∷ []) [] (get_manager id c) keyed
        (λ n e. manager_stored id c n keyed e)
        (omega (arith, unvisited-le-length (id ∷ []) c.nodes)) in
    rw ends
