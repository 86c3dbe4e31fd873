-- ===== src/Tickets/Inbox.antt =====
-- src/amberclaw/tickets/inbox.py: the triage queue over the issues and their leases. The loop reads the clock
-- for each issue whose lease it looks at; `clock` gives that reading by the issue's ID.
use amber_claw.Base.{
  ℕ, ◌-◌, Bool, true, false, not, ◌&&◌, ◌||◌, Option, none, some, String, leb, ltb, if◌then◌else◌,
  List, [], ◌∷◌, filter,
}
use amber_claw.Tickets.Checkout.{CheckoutManager, is_claimed}
use amber_claw.Tickets.Issue.{
  Issue, IssueManager, IssueStatus, IssueSeverity, open_, triaged, in_progress, blocked, resolved,
  closed, severity_index, is_given, list_issues,
}
pub mod Order
pub mod Queue
mod Tests

pub record InboxFilter : Type 0 where
  pub assignee : Option String
  pub severity : Option IssueSeverity
  pub status : Option IssueStatus
  pub tag : Option String
  pub unassigned_only : Bool
  pub include_claimed : Bool

abbrev pub default_filter : InboxFilter
default_filter = record {
  assignee = none;
  severity = none;
  status = none;
  tag = none;
  unassigned_only = false;
  include_claimed = true;
}

pub record TicketInbox : Type 0 where
  pub issue_manager : IssueManager
  pub checkout_manager : CheckoutManager

-- The body of the loop: is the issue kept?
unfoldable pub visit : (String → ℕ) → InboxFilter → Issue → CheckoutManager → CheckoutManager × Bool
visit clock f i m =
    if f.unassigned_only && is_given i.assignee
    then (m, false)
    else if not f.include_claimed
    then (let (m', held) = is_claimed (clock i.issue_id) i.issue_id m in (m', not held))
    else (m, true)

unfoldable pub select :
    (String → ℕ) → InboxFilter → List Issue → CheckoutManager → CheckoutManager × List Issue
select clock f [] m = (m, [])
select clock f (i ∷ is) m =
    let (m', kept) = visit clock f i m in
    let (m'', rest) = select clock f is m' in (m'', if kept then i ∷ rest else rest)

-- The order of the sort key, severity first and the older issue before the newer.
abbrev pub before : Issue → Issue → Bool
before i j =
    ltb (severity_index i.severity) (severity_index j.severity)
    || (leb (severity_index i.severity) (severity_index j.severity)
        && leb i.created_at j.created_at)

unfoldable pub insert_urgent : Issue → List Issue → List Issue
insert_urgent i [] = i ∷ []
insert_urgent i (j ∷ js) = if before i j then i ∷ j ∷ js else j ∷ insert_urgent i js

-- `results.sort` is stable.
unfoldable pub sort_urgent : List Issue → List Issue
sort_urgent [] = []
sort_urgent (i ∷ is) = insert_urgent i (sort_urgent is)

unfoldable pub get_triage_queue :
    (String → ℕ) → InboxFilter → TicketInbox → TicketInbox × List Issue
get_triage_queue clock f inbox =
    let all_issues = list_issues f.status f.severity f.assignee f.tag inbox.issue_manager in
    let (m, results) = select clock f all_issues inbox.checkout_manager in
    (record inbox { checkout_manager = m }, sort_urgent results)

unfoldable pub get_unassigned_issues : (String → ℕ) → TicketInbox → TicketInbox × List Issue
get_unassigned_issues clock =
    get_triage_queue clock (record default_filter { unassigned_only = true })

unfoldable pub get_assigned_issues : (String → ℕ) → String → TicketInbox → TicketInbox × List Issue
get_assigned_issues clock assignee =
    get_triage_queue clock (record default_filter { assignee = some assignee })

abbrev pub is_unfinished : IssueStatus → Bool
is_unfinished open_ = true
is_unfinished triaged = true
is_unfinished in_progress = true
is_unfinished blocked = true
is_unfinished resolved = false
is_unfinished closed = false

-- The clock is read before the issues; no issue is older than no time at all.
unfoldable pub detect_sla_breaches : ℕ → ℕ → TicketInbox → List Issue
detect_sla_breaches now max_age_seconds inbox =
    filter (λ i. is_unfinished i.status && ltb max_age_seconds (now - i.created_at))
      (list_issues none none none none inbox.issue_manager)
