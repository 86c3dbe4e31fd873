-- ===== src/Org/Chart/Walk.antt =====
-- The cycle check of org/chart.py: its loop ends, and what its answer means.
use text.Mathlib.TextEquality.{eq_iff}
use amber_claw.Base.{
  ℕ, zero, suc, ◌+◌, ◌≤◌, ◌<◌, ◌≡◌, refl, ◌≢◌, Bool, true, false, not, Option, none, some, String,
  List, [], ◌∷◌, arith, length, count_if, Option-cases, Bool-cases, inl, inr,
}
use amber_claw.Base.Dict
use amber_claw.Base.Key.{text_key, contains}
use amber_claw.Org.Chart.{AgentNode, Nodes, next_manager, walk, creates_cycle}

-- The nodes of the chart that a walk has not visited.
abbrev pub unvisited : List String → Nodes → ℕ
unvisited visited nodes = count_if (λ e. not (contains e.0 visited)) nodes

unvisited_mono :
    (c : String) (visited : List String) (nodes : Nodes)
    → unvisited (c ∷ visited) nodes ≤ unvisited visited nodes
unfolding contains
unvisited_mono c visited [] = omega arith
unvisited_mono c visited ((j, n) ∷ nodes) = ground (arith, unvisited_mono c visited nodes)

pub unvisited-lt :
    (c : String) (visited : List String) (nodes : Nodes) (n : AgentNode)
    → Dict.get c nodes ≡ some n
    → contains c visited ≡ false
    → unvisited (c ∷ visited) nodes < unvisited visited nodes
unfolding contains Dict.get
unvisited-lt c visited [] n found new = ground arith
unvisited-lt c visited ((j, m) ∷ nodes) n found new =
    ground (
      arith,
      eq_iff j c,
      eq_iff c j,
      unvisited_mono c visited nodes,
      unvisited-lt c visited nodes n,
    )

pub unvisited-le-length :
    (visited : List String) (nodes : Nodes) → unvisited visited nodes ≤ length nodes
unvisited-le-length visited [] = omega arith
unvisited-le-length visited (e ∷ nodes) = ground (arith, unvisited-le-length visited nodes)

last_manager : (nodes : Nodes) (c : String) → Dict.get c nodes ≡ none → next_manager nodes c ≡ none
unfolding next_manager
last_manager nodes c missing = rw missing

walk_total_none :
    (fuel : ℕ) (nodes : Nodes) (visited : List String) → walk fuel nodes visited none ≡ some false
unfolding walk
walk_total_none zero nodes visited = refl
walk_total_none (suc fuel) nodes visited = refl

-- The walk ends within any fuel above the number of unvisited nodes.
pub walk_total :
    (fuel : ℕ) (nodes : Nodes) (visited : List String) (c : Option String)
    → unvisited visited nodes < fuel
    → (b : Bool) × (walk fuel nodes visited c ≡ some b)
unfolding walk
walk_total fuel nodes visited none h = (false, refl)
walk_total zero nodes visited (some c) h = absurd (omega arith)
walk_total (suc fuel) nodes visited (some c) h = elim (Bool-cases (contains c visited)) [
  | inl seen ↦ (true, rw seen)
  | inr new ↦ rw new (elim (Option-cases (Dict.get c nodes)) [
    | inl missing ↦
        (false, rw (last_manager nodes c missing) (walk_total_none fuel nodes (c ∷ visited)))
    | inr (n, found) ↦
        walk_total fuel nodes (c ∷ visited) (next_manager nodes c)
          (omega (arith, unvisited-lt c visited nodes n found new))
  ])
]

-- The fuel of the cycle check is enough: its loop ends, whatever the chart.
pub creates_cycle_total :
    (node m : String) (nodes : Nodes)
    → (b : Bool) × (walk (length nodes + 1) nodes (node ∷ []) (some m) ≡ some b)
      × (creates_cycle node m nodes ≡ b)
unfolding creates_cycle
creates_cycle_total node m nodes =
    let (b, ends) =
      walk_total (length nodes + 1) nodes (node ∷ []) (some m)
        (omega (arith, unvisited-le-length (node ∷ []) nodes)) in
    (b, ends, rw ends)

-- From `x` the chain of managers ends, and does not pass through `a`.
pub data Avoids (nodes : Nodes) (a : String) : String → Type 0 where
  top : (x : String) → x ≢ a → next_manager nodes x ≡ none → Avoids nodes a x
  up : (x y : String) → x ≢ a → next_manager nodes x ≡ some y → Avoids nodes a y → Avoids nodes a x

walk_new :
    (fuel : ℕ) (nodes : Nodes) (visited : List String) (a c : String)
    → contains a visited ≡ true
    → walk (suc fuel) nodes visited (some c) ≡ some false
    → (c ≢ a) × (walk fuel nodes (c ∷ visited) (next_manager nodes c) ≡ some false)
unfolding walk
walk_new fuel nodes visited a c seen e = ground arith

pub walk-Avoids :
    (fuel : ℕ) (nodes : Nodes) (visited : List String) (a c : String)
    → contains a visited ≡ true
    → walk fuel nodes visited (some c) ≡ some false
    → Avoids nodes a c
unfolding walk contains
walk-Avoids zero nodes visited a c seen e = ground arith
walk-Avoids (suc fuel) nodes visited a c seen e = elim (Option-cases (next_manager nodes c)) [
  | inl last ↦ Avoids.top c (walk_new fuel nodes visited a c seen e).0 last
  | inr (y, next) ↦
      let (ne, later) = walk_new fuel nodes visited a c seen e in
      Avoids.up c y ne next
        (walk-Avoids fuel nodes (c ∷ visited) a y (ground arith) (rw next at later))
]
