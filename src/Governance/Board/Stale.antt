-- ===== src/Governance/Board/Stale.antt =====
-- Approvals of proposals to governance/board.py: one that comes in time, and one that an old ticket takes.
use amber_claw.Base.{ℕ, ◌≡◌, false, none, String, List, [], ◌∷◌, All}
use amber_claw.Base.Dict.{values}
use amber_claw.Base.Key.{text_key, ◌==◌}
use amber_claw.Governance.Tickets.{TicketSystem, get_ticket}
use amber_claw.Governance.Board.{Event, approve}

-- No ticket has the ID yet.
abbrev pub IsFresh : String → TicketSystem → Type 0
IsFresh id s = (get_ticket id s ≡ none) × All (λ t. (t.id == id) ≡ false) (values s.items)

-- The office after the call of `approve_action`.
abbrev pub approving : ℕ → String → List Event
approving now a = approve now a ∷ []
