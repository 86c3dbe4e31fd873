-- ===== src/Governance/Board.antt =====
-- `GovernanceBoard` of src/amberclaw/governance/board.py, with the ticket system that it shares with others.
-- While `evaluate_proposal` sleeps before each of its 50 polls, others act: a round is the list of their
-- calls. Costs are numbers of the smallest unit of money.
use amber_claw.Base.{
  ℕ, zero, suc, Bool, true, false, not, ◌&&◌, ◌||◌, Option, none, some, String, leb, ltb,
  if◌then◌else◌, List, [], ◌∷◌, ◌++◌,
}
use amber_claw.Base.Key.{text_key, ◌==◌}
use amber_claw.Governance.Tickets
use amber_claw.Governance.Tickets.{
  Ticket, TicketSystem, TicketStatus, TicketPriority, pending, approved, medium, is_pending,
  is_approved, create_ticket, get_ticket, resolve_ticket, get_pending_tickets,
}
pub mod Outcome
pub mod Stale
mod Tests

pub data RiskLevel : Type 0 where
  low_risk medium_risk high_risk critical_risk : RiskLevel

unfoldable pub risk_value : RiskLevel → ℕ
risk_value low_risk = 1
risk_value medium_risk = 2
risk_value high_risk = 3
risk_value critical_risk = 4

pub record ActionProposal : Type 0 where
  pub action_id : String
  pub agent_id : String
  pub description : String
  pub risk_level : RiskLevel
  pub cost_estimate : ℕ

pub record GovernanceBoard : Type 0 where
  pub require_human_approval_above : RiskLevel
  pub max_auto_budget : ℕ
  pub pending_approvals : List ActionProposal

-- The board and the ticket system.
pub record Office : Type 0 where
  pub board : GovernanceBoard
  pub tickets : TicketSystem

abbrev pub equal : ℕ → ℕ → Bool
equal a b = leb a b && leb b a

-- Models are equal if their fields are.
unfoldable pub same_proposal : ActionProposal → ActionProposal → Bool
same_proposal p q =
    (p.action_id == q.action_id)
    && (p.agent_id == q.agent_id)
    && (p.description == q.description)
    && equal (risk_value p.risk_level) (risk_value q.risk_level)
    && equal p.cost_estimate q.cost_estimate

-- `if p in ps: ps.remove(p)`
unfoldable pub remove_first : ActionProposal → List ActionProposal → List ActionProposal
remove_first p [] = []
remove_first p (q ∷ qs) = if same_proposal q p then qs else q ∷ remove_first p qs

abbrev pub with_pending : List ActionProposal → Office → Office
with_pending ps o = record o { board = record o.board { pending_approvals = ps } }

-- The first pending proposal with the ID.
unfoldable pub find_proposal : String → List ActionProposal → Option ActionProposal
find_proposal id [] = none
find_proposal id (p ∷ ps) =
    let rest = find_proposal id ps in if p.action_id == id then some p else rest

abbrev pub is_for : String → Option String → Bool
is_for id none = false
is_for id (some p) = p == id

-- The first of the tickets that is for the proposal.
unfoldable pub find_ticket : String → List Ticket → Option Ticket
find_ticket id [] = none
find_ticket id (t ∷ ts) =
    let rest = find_ticket id ts in if is_for id t.proposal_id then some t else rest

abbrev pub approve_ticket : ℕ → ActionProposal → Office → Option Ticket → Office
approve_ticket now p o (some t) = record o {
  tickets = (resolve_ticket t.id approved now (some "board_operator") o.tickets).0;
}
approve_ticket now p o none = with_pending (remove_first p o.board.pending_approvals) o

abbrev pub approve_found : ℕ → String → Office → Option ActionProposal → Office × Bool
approve_found now id o none = (o, false)
approve_found now id o (some p) =
    (approve_ticket now p o (find_ticket id (get_pending_tickets o.tickets)), true)

unfoldable pub approve_action : ℕ → String → Office → Office × Bool
approve_action now id o = approve_found now id o (find_proposal id o.board.pending_approvals)

-- What others do in a round: an approval through the board, or a call of the ticket system.
pub data Event : Type 0 where
  approve : ℕ → String → Event
  resolve : String → TicketStatus → ℕ → Option String → Event
  open_ticket : String → ℕ → String → String → TicketPriority → Option String → Event

unfoldable pub act : Event → Office → Office
act (approve now id) o = (approve_action now id o).0
act (resolve id status now reviewer) o = record o {
  tickets = (resolve_ticket id status now reviewer o.tickets).0;
}
act (open_ticket id now requester description priority proposal) o = record o {
  tickets = (create_ticket id now requester description priority proposal o.tickets).0;
}

unfoldable pub act_all : List Event → Office → Office
act_all [] o = o
act_all (e ∷ es) o = act_all es (act e o)

abbrev pub status_of : Option Ticket → TicketStatus
status_of none = pending
status_of (some t) = t.status

-- The loop with `left` polls to go; round `k` comes before the poll after which `k` are left.
unfoldable pub wait : ℕ → (ℕ → List Event) → String → Office → Office × TicketStatus
wait zero rounds id o = (o, pending)
wait (suc left) rounds id o =
    let o' = act_all (rounds left) o in
    let status = status_of (get_ticket id o'.tickets) in
    let rest = wait left rounds id o' in if not (is_pending status) then (o', status) else rest

-- The same code stands under both limits, with another text for the ticket.
unfoldable pub ask :
    String → ℕ → String → (ℕ → List Event) → ActionProposal → Office → Office × Bool
ask id now text rounds p o =
    let (tickets, ticket) =
      create_ticket id now p.agent_id text medium (some p.action_id) o.tickets in
    let (o', status) =
      wait 50 rounds id
        (record (with_pending (o.board.pending_approvals ++ p ∷ []) o) { tickets = tickets }) in
    (with_pending (remove_first p o'.board.pending_approvals) o', is_approved status)

-- `text` is the description of the ticket in either case.
unfoldable pub evaluate_proposal :
    String → ℕ → String → (ℕ → List Event) → ActionProposal → Office → Office × Bool
evaluate_proposal id now text rounds p o =
    if ltb o.board.max_auto_budget p.cost_estimate
    then ask id now text rounds p o
    else if leb (risk_value o.board.require_human_approval_above) (risk_value p.risk_level)
    then ask id now text rounds p o
    else (o, true)
