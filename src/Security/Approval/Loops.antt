-- ===== src/Security/Approval/Loops.antt =====
-- The runaway-loop guard of security/approval.py over the calls of a process.
use amber_claw.Base.{
  ℕ, ◌+◌, ◌-◌, ◌≤◌, ◌<◌, ◌≡◌, ◌⊎◌, inl, inr, sym, subst, All, Bool, true, false, String, List, [],
  ◌∷◌, arith, is_ok, if◌then◌else◌, suc, ◌&&◌,
}
use amber_claw.Base.Dict
use amber_claw.Base.Dict.{get_or, get-set, get-set_self, get-set_ne}
use amber_claw.Base.Key.{text_key, ◌==◌, ==_refl}
use amber_claw.Security.Approval.{RunawayLoopGuard, record_and_check, extend, no_streak}

-- A tool call: its turn, its tool and the hash of its arguments.
pub record Call : Type 0 where
  pub turn : String
  pub tool : String
  pub hash : String

unfoldable pub after : Call → RunawayLoopGuard → RunawayLoopGuard
after c g = (record_and_check c.turn c.tool c.hash g).0

unfoldable pub accepted : Call → RunawayLoopGuard → Bool
accepted c g = is_ok (record_and_check c.turn c.tool c.hash g).1

-- How many calls of a turn the guard lets through.
unfoldable pub passes : String → List Call → RunawayLoopGuard → ℕ
passes turn [] g = 0
passes turn (c ∷ cs) g =
    let rest = passes turn cs (after c g) in
    if (c.turn == turn) && accepted c g then suc rest else rest

abbrev pub calls_of : String → RunawayLoopGuard → ℕ
calls_of turn g = get_or 0 (Dict.get turn g.turn_call_counts)

step-calls :
    (turn : String) (c : Call) (g : RunawayLoopGuard)
    → calls_of turn (after c g) ≡ (if c.turn == turn then calls_of turn g + 1 else calls_of turn g)
unfolding after record_and_check
step-calls turn c g = ground (
  arith,
  get-set c.turn turn (calls_of c.turn g + 1) g.turn_call_counts,
  text_key.same_key_iff c.turn turn,
)

step-max :
    (c : Call) (g : RunawayLoopGuard)
    → ((after c g).max_calls_per_turn ≡ g.max_calls_per_turn)
      × ((after c g).max_duplicate_consecutive_calls ≡ g.max_duplicate_consecutive_calls)
unfolding after record_and_check
step-max c g = ground arith

step-accepted :
    (c : Call) (g : RunawayLoopGuard)
    → accepted c g ≡ true
    → calls_of c.turn g + 1 ≤ g.max_calls_per_turn
unfolding accepted record_and_check
step-accepted c g h = ground arith

-- However the calls of several turns are interleaved, the guard lets through at most as many calls of
-- a turn as are left of the limit for that turn.
pub passes-max :
    (turn : String) (cs : List Call) (g : RunawayLoopGuard)
    → passes turn cs g ≤ g.max_calls_per_turn - calls_of turn g
unfolding passes
passes-max turn [] g = omega arith
passes-max turn (c ∷ cs) g = ground (
  arith,
  passes-max turn cs (after c g),
  step-calls turn c g,
  step-max c g,
  step-accepted c g,
  text_key.same_key_iff c.turn turn,
)

-- How often the call came in a row at the end of its turn.
unfoldable pub in_a_row : Call → RunawayLoopGuard → ℕ
in_a_row c g =
    let s = get_or no_streak (Dict.get c.turn g.turn_consecutive) in
    if s.last_tool == c.tool && s.last_hash == c.hash then s.count else 0

again-in_a_row :
    (c : Call) (g : RunawayLoopGuard)
    → in_a_row c g ≤ in_a_row c (after c g)
      × (accepted c g ≡ true → in_a_row c (after c g) ≡ in_a_row c g + 1)
      × (accepted c g ≡ true → in_a_row c g + 1 < g.max_duplicate_consecutive_calls)
unfolding accepted after in_a_row record_and_check extend
again-in_a_row c g = ground (
  arith,
  ==_refl c.tool,
  ==_refl c.hash,
  get-set_self c.turn (extend c.tool c.hash (get_or no_streak (Dict.get c.turn g.turn_consecutive)))
      g.turn_consecutive,
)

-- A call of another turn leaves the streak of the turn as it is.
other-in_a_row :
    (c d : Call) (g : RunawayLoopGuard)
    → (d.turn == c.turn) ≡ false
    → in_a_row c (after d g) ≡ in_a_row c g
unfolding after in_a_row record_and_check
other-in_a_row c d g other = ground (
  arith,
  other,
  get-set d.turn c.turn
      (extend d.tool d.hash (get_or no_streak (Dict.get d.turn g.turn_consecutive)))
      g.turn_consecutive,
)

-- The same tool with the same arguments if it is of the same turn.
abbrev pub IsSame : Call → Call → Type 0
IsSame c d = (d ≡ c) ⊎ ((d.turn == c.turn) ≡ false)

-- Of a call that is repeated in its turn without another one of that turn in between, fewer than the maximum
-- of duplicates get through, counting those already in a row, whatever calls of other turns come in between.
pub passes-duplicates :
    (c : Call) (cs : List Call) (g : RunawayLoopGuard)
    → All (IsSame c) cs
    → passes c.turn cs g ≤ g.max_duplicate_consecutive_calls - 1 - in_a_row c g
unfolding passes
passes-duplicates c [] g h = omega arith
passes-duplicates c (d ∷ cs) g (inl same, h) =
    subst (λ x. passes c.turn (x ∷ cs) g ≤ g.max_duplicate_consecutive_calls - 1 - in_a_row c g)
      (sym same)
      (ground (arith, passes-duplicates c cs (after c g) h, again-in_a_row c g, step-max c g))
passes-duplicates c (d ∷ cs) g (inr other, h) =
    ground
      (arith, other, passes-duplicates c cs (after d g) h, other-in_a_row c d g other, step-max d g)
