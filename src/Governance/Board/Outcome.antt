-- ===== src/Governance/Board/Outcome.antt =====
-- What becomes of a proposal to governance/board.py: with nobody there, and with one approval in time.
use amber_claw.Base.{
  ℕ, zero, suc, ◌<◌, ◌≡◌, refl, ap, Bool, true, false, ◌||◌, some, String, leb, ltb, if◌then◌else◌,
  List, [], ◌∷◌, ◌++◌, Bool-cases, inl, inr, arith,
}
use amber_claw.Base.Dict.{get-set_self}
use amber_claw.Base.Key.{text_key}
use amber_claw.Governance.Tickets.{
  Ticket, pending, medium, is_pending, is_approved, new_ticket, create_ticket, get_ticket,
}
use amber_claw.Governance.Board.{
  ActionProposal, GovernanceBoard, Office, Event, risk_value, equal, remove_first, with_pending,
  act_all, status_of, wait, ask, evaluate_proposal,
}

-- The ticket is open, as far as it is there.
abbrev pub IsOpen : String → Office → Type 0
IsOpen id o = is_pending (status_of (get_ticket id o.tickets)) ≡ true

-- No events, and events in the round `r` alone.
abbrev pub quiet : ℕ → List Event
quiet j = []

abbrev pub only : ℕ → List Event → ℕ → List Event
only r es j = if equal j r then es else []

pub wait-quiet :
    (k : ℕ) (rounds : ℕ → List Event) (id : String) (o : Office)
    → ((j : ℕ) → j < k → rounds j ≡ [])
    → IsOpen id o
    → wait k rounds id o ≡ (o, pending)
unfolding wait act_all
wait-quiet zero rounds id o none_come h = refl
wait-quiet (suc k) rounds id o none_come h =
    rw (none_come k (omega arith), h)
      (wait-quiet k rounds id o (λ j lt. none_come j (omega arith)) h)

-- Up to the one round with events nothing happens.
pub wait-only_open :
    (k r : ℕ) (es : List Event) (id : String) (o : Office)
    → IsOpen id o
    → IsOpen id (act_all es o)
    → (wait k (only r es) id o).1 ≡ pending
unfolding wait act_all
wait-only_open zero r es id o h g = refl
wait-only_open (suc k) r es id o h g = elim (Bool-cases (equal k r)) [
  | inr e ↦ rw (e, h) (wait-only_open k r es id o h g)
  | inl e ↦
      rw (e, g)
        (ap (λ x. x.1)
          (wait-quiet k (only r es) id (act_all es o) (λ j lt. ground (arith, e, lt)) g))
]

pub wait-only_done :
    (k r : ℕ) (es : List Event) (id : String) (o : Office)
    → r < k
    → IsOpen id o
    → is_pending (status_of (get_ticket id (act_all es o).tickets)) ≡ false
    → (wait k (only r es) id o).1 ≡ status_of (get_ticket id (act_all es o).tickets)
unfolding wait act_all
wait-only_done zero r es id o lt h g = absurd (omega arith)
wait-only_done (suc k) r es id o lt h g = elim (Bool-cases (equal k r)) [
  | inl e ↦ rw (e, g) refl
  | inr e ↦ rw (e, h) (wait-only_done k r es id o (ground (arith, e, lt)) h g)
]

-- The office with the proposal pending and its ticket open.
abbrev pub asked : String → ℕ → String → ActionProposal → Office → Office
asked id now text p o = record (with_pending (o.board.pending_approvals ++ p ∷ []) o) {
  tickets = (create_ticket id now p.agent_id text medium (some p.action_id) o.tickets).0;
}

abbrev pub ticket_of : String → ℕ → String → ActionProposal → Ticket
ticket_of id now text p = new_ticket id now p.agent_id text medium (some p.action_id)

pub get_ticket-asked :
    (id : String) (now : ℕ) (text : String) (p : ActionProposal) (o : Office)
    → get_ticket id (asked id now text p o).tickets ≡ some (ticket_of id now text p)
unfolding get_ticket create_ticket
get_ticket-asked id now text p o = get-set_self id (ticket_of id now text p) o.tickets.items

pub asked-IsOpen :
    (id : String) (now : ℕ) (text : String) (p : ActionProposal) (o : Office)
    → IsOpen id (asked id now text p o)
asked-IsOpen id now text p o = rw (get_ticket-asked id now text p o) refl

pub ask-result :
    (id : String) (now : ℕ) (text : String) (rounds : ℕ → List Event) (p : ActionProposal)
    (o : Office)
    → (ask id now text rounds p o).1 ≡ is_approved (wait 50 rounds id (asked id now text p o)).1
unfolding create_ticket ask
ask-result id now text rounds p o = refl

pub ask-quiet :
    (id : String) (now : ℕ) (text : String) (p : ActionProposal) (o : Office)
    → ask id now text quiet p o ≡ (
      with_pending (remove_first p (o.board.pending_approvals ++ p ∷ [])) (asked id now text p o),
      false,
    )
unfolding ask
ask-quiet id now text p o =
    ap (λ x. (with_pending (remove_first p x.0.board.pending_approvals) x.0, is_approved x.1))
      (wait-quiet 50 quiet id (asked id now text p o) (λ j lt. refl) (asked-IsOpen id now text p o))

-- The proposal needs a human.
abbrev pub needs_human : ActionProposal → GovernanceBoard → Bool
needs_human p b =
    ltb b.max_auto_budget p.cost_estimate
    || leb (risk_value b.require_human_approval_above) (risk_value p.risk_level)

pub evaluate_proposal-over :
    (id : String) (now : ℕ) (text : String) (rounds : ℕ → List Event) (p : ActionProposal)
    (o : Office)
    → evaluate_proposal id now text rounds p o
      ≡ (if needs_human p o.board then ask id now text rounds p o else (o, true))
unfolding evaluate_proposal
evaluate_proposal-over id now text rounds p o =
    elim (Bool-cases (ltb o.board.max_auto_budget p.cost_estimate)) [
      | inl e ↦ rw e refl
      | inr e ↦ rw e refl
    ]
