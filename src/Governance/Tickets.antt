-- ===== src/Governance/Tickets.antt =====
-- `TicketSystem` of src/amberclaw/governance/tickets.py over the store of storage/persistence.py, whose file
-- is output. Of the context only the proposal's ID is read.
use amber_claw.Base.{
  ℕ, Bool, true, false, ◌&&◌, Option, none, some, String, leb, if◌then◌else◌, List, [], ◌∷◌, filter,
}
use amber_claw.Base.Dict
use amber_claw.Base.Dict.{Dict, values}
use amber_claw.Base.Key.{text_key}

pub data TicketPriority : Type 0 where
  low medium high critical : TicketPriority

pub data TicketStatus : Type 0 where
  pending approved rejected : TicketStatus

pub record Ticket : Type 0 where
  pub id : String
  pub requester_id : String
  pub description : String
  pub priority : TicketPriority
  pub status : TicketStatus
  pub proposal_id : Option String
  pub created_at : ℕ
  pub resolved_at : Option ℕ
  pub reviewer_id : Option String

pub record TicketSystem : Type 0 where
  pub items : Dict String Ticket

abbrev pub is_pending : TicketStatus → Bool
is_pending pending = true
is_pending _ = false

abbrev pub is_approved : TicketStatus → Bool
is_approved approved = true
is_approved _ = false

abbrev pub new_ticket : String → ℕ → String → String → TicketPriority → Option String → Ticket
new_ticket id now requester description priority proposal = record {
  id = id;
  requester_id = requester;
  description = description;
  priority = priority;
  status = pending;
  proposal_id = proposal;
  created_at = now;
  resolved_at = none;
  reviewer_id = none;
}

-- `id` is the new UUID.
unfoldable pub create_ticket :
    String
    → ℕ
    → String
    → String
    → TicketPriority
    → Option String
    → TicketSystem
    → TicketSystem × Ticket
create_ticket id now requester description priority proposal s =
    let t = new_ticket id now requester description priority proposal in
    (record { items = Dict.set id t s.items }, t)

unfoldable pub get_ticket : String → TicketSystem → Option Ticket
get_ticket id s = Dict.get id s.items

abbrev pub resolved : TicketStatus → ℕ → Option String → Ticket → Ticket
resolved status now reviewer t = record t {
  status = status;
  resolved_at = some now;
  reviewer_id = reviewer;
}

abbrev pub resolve_found :
    String
    → TicketStatus
    → ℕ
    → Option String
    → TicketSystem
    → Option Ticket
    → TicketSystem × Option Ticket
resolve_found id status now reviewer s none = (s, none)
resolve_found id status now reviewer s (some t) = (
  record { items = Dict.set id (resolved status now reviewer t) s.items },
  some (resolved status now reviewer t),
)

-- A ticket that is resolved already is resolved anew.
unfoldable pub resolve_ticket :
    String → TicketStatus → ℕ → Option String → TicketSystem → TicketSystem × Option Ticket
resolve_ticket id status now reviewer s = resolve_found id status now reviewer s (get_ticket id s)

unfoldable pub get_pending_tickets : TicketSystem → List Ticket
get_pending_tickets s = filter (λ t. is_pending t.status) (values s.items)

abbrev status_index : TicketStatus → ℕ
status_index pending = 0
status_index approved = 1
status_index rejected = 2

abbrev priority_index : TicketPriority → ℕ
priority_index low = 0
priority_index medium = 1
priority_index high = 2
priority_index critical = 3

abbrev same : ℕ → ℕ → Bool
same a b = leb a b && leb b a

abbrev has_status : Option TicketStatus → Ticket → Bool
has_status none t = true
has_status (some s) t = same (status_index t.status) (status_index s)

abbrev has_priority : Option TicketPriority → Ticket → Bool
has_priority none t = true
has_priority (some p) t = same (priority_index t.priority) (priority_index p)

-- `sorted(..., key=created_at, reverse=True)` is stable.
unfoldable pub insert_newest : Ticket → List Ticket → List Ticket
insert_newest t [] = t ∷ []
insert_newest t (u ∷ us) =
    if leb u.created_at t.created_at then t ∷ u ∷ us else u ∷ insert_newest t us

unfoldable pub sort_newest : List Ticket → List Ticket
sort_newest [] = []
sort_newest (t ∷ ts) = insert_newest t (sort_newest ts)

unfoldable pub list_tickets :
    Option TicketStatus → Option TicketPriority → TicketSystem → List Ticket
list_tickets status priority s =
    sort_newest (filter (has_priority priority) (filter (has_status status) (values s.items)))

unfoldable pub clear : TicketSystem → TicketSystem
clear s = record { items = [] }
