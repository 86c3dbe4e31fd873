-- ===== src/Org/Chart/Removal.antt =====
-- Removing an agent in org/chart.py: where its subordinates go.
use text.Mathlib.TextEquality.{eq_iff}
use amber_claw.Base.{
  ◌≡◌, refl, ◌∙◌, ap, true, ◌&&◌, Option, none, some, String, List, [], ◌∷◌, arith, Option-cases,
  Bool-cases, inl, inr, ◌⊎◌, if◌then◌else◌,
}
use amber_claw.Base.Dict
use amber_claw.Base.Dict.{get-set, get-remove}
use amber_claw.Base.Key.{text_key, ◌==◌, contains}
use amber_claw.Org.Chart.{
  AgentNode, OrgChart, Nodes, next_manager, add_subordinate, remove_subordinate, change, on_manager,
  relinked, relink, remove_agent,
}
use amber_claw.Org.Chart.Acyclic.{
  Ends, IsAcyclic, next_manager-set, next_manager-on_manager, add_subordinate_keeps,
}

has-change :
    (k : String) (f : AgentNode → AgentNode) (nodes : Nodes) (x : String)
    → Dict.has x (change k f nodes) ≡ Dict.has x nodes
unfolding change
has-change k f nodes x = elim (Option-cases (Dict.get k nodes)) [
  | inl missing ↦ rw (missing, change)
  | inr (n, found) ↦ rw (found, change) (ground (arith, get-set k x (f n) nodes, eq_iff k x))
]

has-on_manager :
    (m : Option String) (f : AgentNode → AgentNode) (nodes : Nodes) (x : String)
    → Dict.has x (on_manager m f nodes) ≡ Dict.has x nodes
unfolding on_manager
has-on_manager none f nodes x = refl
has-on_manager (some m) f nodes x = ground (arith, has-change m f nodes x)

remove_subordinate_keeps :
    (sub : String) (n : AgentNode) → (remove_subordinate sub n).manager_id ≡ n.manager_id
unfolding remove_subordinate
remove_subordinate_keeps sub n = ground arith

next_manager-give :
    (sub : String) (m : Option String) (nodes : Nodes) (x : String)
    → Dict.has sub nodes ≡ true
    → next_manager (change sub (λ n. record n { manager_id = m }) nodes) x
      ≡ (if sub == x then m else next_manager nodes x)
unfolding change
next_manager-give sub m nodes x present = elim (Option-cases (Dict.get sub nodes)) [
  | inl missing ↦ ground arith
  | inr (n, found) ↦ rw (found, change) (next_manager-set sub (record n { manager_id = m }) nodes x)
]

has-relinked :
    (m : Option String) (sub : String) (nodes : Nodes) (x : String)
    → Dict.has x (relinked m sub nodes) ≡ Dict.has x nodes
unfolding relinked
has-relinked m sub nodes x = elim (Bool-cases (Dict.has sub nodes)) [
  | inl present ↦ rw present (
      has-on_manager m (add_subordinate sub) _ x
      ∙ has-change sub (λ n. record n { manager_id = m }) nodes x)
  | inr absent ↦ rw absent
]

next_manager-relinked :
    (m : Option String) (sub : String) (nodes : Nodes) (x : String)
    → next_manager (relinked m sub nodes) x
      ≡ (if sub == x && Dict.has x nodes then m else next_manager nodes x)
unfolding relinked
next_manager-relinked m sub nodes x = elim (Bool-cases (Dict.has sub nodes)) [
  | inl present ↦ rw present (
      next_manager-on_manager m (add_subordinate sub) _ x (add_subordinate_keeps sub)
      ∙ next_manager-give sub m nodes x present
      ∙ ground (arith, eq_iff sub x))
  | inr absent ↦ rw absent (ground (arith, eq_iff sub x))
]

-- After the loop, the stored subordinates have the removed agent's manager, and no other agent's
-- manager has changed.
next_manager-relink :
    (m : Option String) (subs : List String) (nodes : Nodes) (x : String)
    → next_manager (relink m subs nodes) x
      ≡ (if contains x subs && Dict.has x nodes then m else next_manager nodes x)
unfolding relink contains
next_manager-relink m [] nodes x = refl
next_manager-relink m (sub ∷ subs) nodes x = ground (
  arith,
  next_manager-relink m subs (relinked m sub nodes) x,
  next_manager-relinked m sub nodes x,
  has-relinked m sub nodes x,
)

next_manager-drop :
    (id : String) (nodes : Nodes) (x : String)
    → next_manager (Dict.remove id nodes) x ≡ (if id == x then none else next_manager nodes x)
unfolding next_manager
next_manager-drop id nodes x = ground (arith, get-remove id x nodes)

-- The manager of an agent after the removal of `target`, stored under `id`.
next_manager-remove :
    (id : String) (target : AgentNode) (c : OrgChart) (x : String)
    → Dict.get id c.nodes ≡ some target
    → next_manager (remove_agent id c).nodes x ≡ (
        if id == x
        then none
        else if contains x target.subordinate_ids && Dict.has x c.nodes
        then target.manager_id
        else next_manager c.nodes x)
unfolding remove_agent
next_manager-remove id target c x found =
    rw (found, remove_agent)
      (next_manager-relink target.manager_id target.subordinate_ids _ x
        ∙ ground (
          arith,
          next_manager-on_manager target.manager_id (remove_subordinate id) (Dict.remove id c.nodes)
              x (remove_subordinate_keeps id),
          has-on_manager target.manager_id (remove_subordinate id) (Dict.remove id c.nodes) x,
          next_manager-drop id c.nodes x,
          get-remove id x c.nodes,
        ))

-- The subordinates that a node lists, where they are stored, have it as their manager.
abbrev pub ListsOwn : String → AgentNode → Nodes → Type 0
ListsOwn id target nodes =
    (x : String)
    → contains x target.subordinate_ids ≡ true
    → Dict.has x nodes ≡ true
    → next_manager nodes x ≡ some id

module _ (id : String) (target : AgentNode) (c : OrgChart)
    (found : Dict.get id c.nodes ≡ some target) (own : ListsOwn id target c.nodes) where
  -- The cases of the manager after the removal.
  after :
      (x : String)
      → (next_manager (remove_agent id c).nodes x ≡ none)
        ⊎ (((next_manager c.nodes x ≡ some id)
              × (next_manager (remove_agent id c).nodes x ≡ next_manager c.nodes id))
            ⊎ (next_manager (remove_agent id c).nodes x ≡ next_manager c.nodes x))
  unfolding next_manager
  after x = ground (arith, found, own x, unfold_remove x)
    where
      unfold_remove :
          (x : String)
          → next_manager (remove_agent id c).nodes x ≡ (
              if id == x
              then none
              else if contains x target.subordinate_ids && Dict.has x c.nodes
              then target.manager_id
              else next_manager c.nodes x)
      unfold_remove x = next_manager-remove id target c x found

  -- The chain of `x` ends, and so does one that goes on as it did from `x`.
  Ends-remove :
      (x : String)
      → Ends c.nodes x
      → Ends (remove_agent id c).nodes x
        × ((y : String)
            → next_manager (remove_agent id c).nodes y ≡ next_manager c.nodes x
            → Ends (remove_agent id c).nodes y)
  Ends-remove x (Ends.top _ last) = (
    elim (after x) [
      | inl none' ↦ Ends.top x none'
      | inr (inl both) ↦ absurd (ground (arith, both, last))
      | inr (inr same) ↦ Ends.top x (same ∙ last)
    ],
    λ y e. Ends.top y (e ∙ last),
  )
  Ends-remove x (Ends.up _ z next rest) =
      let (ends, goes_on) = Ends-remove z rest in
      (
        elim (after x) [
          | inl none' ↦ Ends.top x none'
          | inr (inl both) ↦
              goes_on x (both.1 ∙ ap (next_manager c.nodes) (ground (arith, both.0, next)))
          | inr (inr same) ↦ Ends.up x z (same ∙ next) ends
        ],
        λ y e. Ends.up y z (e ∙ next) ends,
      )

-- Removing an agent keeps every chain of managers finite, where the subordinates that it lists, as
-- far as they are stored, have it as their manager.
pub remove_agent-IsAcyclic :
    (id : String) (target : AgentNode) (c : OrgChart)
    → Dict.get id c.nodes ≡ some target
    → ListsOwn id target c.nodes
    → IsAcyclic c.nodes
    → IsAcyclic (remove_agent id c).nodes
remove_agent-IsAcyclic id target c found own h x = (Ends-remove id target c found own x (h x)).0
