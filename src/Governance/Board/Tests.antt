-- ===== src/Governance/Board/Tests.antt =====
-- The board of src/amberclaw/governance/board.py at work.
use amber_claw.Base.{◌≡◌, refl, true, false, none, some, [], ◌∷◌}
use amber_claw.Base.Dict
use amber_claw.Base.Dict.{Dict}
use amber_claw.Base.Key.{text_key}
use amber_claw.Governance.Tickets.{
  pending, rejected, create_ticket, get_ticket, resolve_ticket, get_pending_tickets, insert_newest,
  sort_newest, list_tickets,
}
use amber_claw.Governance.Board.{
  ActionProposal, Office, low_risk, high_risk, risk_value, same_proposal, remove_first,
  find_proposal, find_ticket, approve_action, resolve, act, act_all, wait, ask, evaluate_proposal,
}
use amber_claw.Governance.Board.Outcome.{quiet, only, ticket_of}
use amber_claw.Governance.Board.Stale.{approving}

program : Unit {0}
unfolding Dict.get Dict.set create_ticket get_ticket resolve_ticket get_pending_tickets
    insert_newest sort_newest list_tickets risk_value same_proposal remove_first find_proposal
    find_ticket approve_action act act_all wait ask evaluate_proposal
program = tt

-- The default limits: a budget of 100 cents, and humans from high risk on.
abbrev empty : Office
empty = record {
  board = record {
    require_human_approval_above = high_risk;
    max_auto_budget = 100;
    pending_approvals = [];
  };
  tickets = record { items = [] };
}

abbrev deploy : ActionProposal
deploy = record {
  action_id = "deploy";
  agent_id = "ops";
  description = "Deploy";
  risk_level = high_risk;
  cost_estimate = 5;
}

abbrev purchase : ActionProposal
purchase = record {
  action_id = "buy";
  agent_id = "ops";
  description = "Buy";
  risk_level = low_risk;
  cost_estimate = 100;
}

-- The office after a request that nobody answered.
abbrev left_open : Office
left_open = (evaluate_proposal "t1" 10 "deploy?" quiet deploy empty).0

cheap : (evaluate_proposal "t1" 10 "" quiet purchase empty).1 ≡ true
unfolding program
cheap = refl

in_time : (evaluate_proposal "t1" 10 "" (only 3 (approving 11 "deploy")) deploy empty).1 ≡ true
unfolding program
in_time = refl

turned_down :
    (evaluate_proposal "t1" 10 "" (only 3 (resolve "t1" rejected 11 none ∷ [])) deploy empty).1
    ≡ false
unfolding program
turned_down = refl

-- The same approval of the same action, after a request that nobody answered: its ticket is approved now.
stale : (evaluate_proposal "t2" 20 "" (only 3 (approving 21 "deploy")) deploy left_open).1 ≡ false
unfolding program
stale = refl

newest_first :
    list_tickets
      (some pending)
      none
      (evaluate_proposal "t2" 20 "deploy?" quiet deploy left_open).0.tickets
    ≡ ticket_of "t2" 20 "deploy?" deploy ∷ ticket_of "t1" 10 "deploy?" deploy ∷ []
unfolding program
newest_first = refl

no_such_action : (approve_action 30 "deploy" left_open).1 ≡ false
unfolding program
no_such_action = refl
