-- ===== src/Tickets/Inbox/Tests.antt =====
-- The inbox of src/amberclaw/tickets/inbox.py at work.
use mathlib.Core.List.{Perm}
use amber_claw.Base.{◌≡◌, refl, ℕ, false, Option, none, some, String, List, [], ◌∷◌, map, filter}
use amber_claw.Base.Dict
use amber_claw.Base.Key.{text_key, contains, truthy}
use amber_claw.Tickets.Checkout.{is_claimed, store, claim_ticket}
use amber_claw.Tickets.Issue.{
  Issue, IssueManager, IssueStatus, IssueSeverity, open_, triaged, resolved, major, critical,
  list_issues, insert_newest, sort_newest,
}
use amber_claw.Tickets.Issue.Listing.{matches}
use amber_claw.Tickets.Inbox.{
  InboxFilter, TicketInbox, default_filter, visit, select, insert_urgent, sort_urgent,
  get_triage_queue, get_unassigned_issues, get_assigned_issues, detect_sla_breaches,
}
use amber_claw.Tickets.Inbox.Order.{UrgentFirst}
use amber_claw.Tickets.Inbox.Queue.{shown, get_triage_queue-perm}

program : Unit {0}
unfolding Dict.get Dict.set contains truthy is_claimed store claim_ticket list_issues insert_newest
    sort_newest visit select insert_urgent sort_urgent get_triage_queue get_unassigned_issues
    get_assigned_issues detect_sla_breaches
program = tt

abbrev issue : String → IssueStatus → IssueSeverity → Option String → ℕ → Issue
issue id status severity assignee created = record {
  issue_id = id;
  title = id;
  description = "";
  status = status;
  severity = severity;
  assignee = assignee;
  reporter = "ops";
  tags = [];
  created_at = created;
  updated_at = created;
  resolved_at = none;
}

abbrev issues : IssueManager
issues = record {
  issues =
      ("a", issue "a" open_ major none 10)
      ∷ ("b", issue "b" triaged critical (some "ann") 30)
      ∷ ("c", issue "c" resolved major none 20)
      ∷ ("d", issue "d" open_ major none 5)
      ∷ [];
}

-- `a` is held until 160, the lease on `d` ends at 105.
abbrev inbox : TicketInbox
inbox = record {
  issue_manager = issues;
  checkout_manager =
      (claim_ticket "x2" 100 100 "d" "bob" 5
        (claim_ticket "x1" 100 100 "a" "bob" 60 (record { checkouts = [] })).0).0;
}

abbrev ids : TicketInbox × List Issue → List String
ids r = map (λ i. i.issue_id) r.1

abbrev clock : String → ℕ
clock id = 110

abbrev free : InboxFilter
free = record default_filter { include_claimed = false }

triage : ids (get_triage_queue clock free inbox) ≡ "b" ∷ "d" ∷ "c" ∷ []
unfolding program
triage = refl

unassigned : ids (get_unassigned_issues clock inbox) ≡ "d" ∷ "a" ∷ "c" ∷ []
unfolding program
unassigned = refl

for_worker : ids (get_assigned_issues clock "ann" inbox) ≡ "b" ∷ []
unfolding program
for_worker = refl

breaches : map (λ i. i.issue_id) (detect_sla_breaches 3608 3600 inbox) ≡ "d" ∷ []
unfolding program
breaches = refl

get_triage_queue-perm_example :
    Perm (get_triage_queue clock free inbox).1 (
      filter (shown clock free inbox.checkout_manager) (
        filter
          (matches free.status free.severity free.assignee free.tag)
          (Dict.values inbox.issue_manager.issues)))
    × UrgentFirst (get_triage_queue clock free inbox).1
get_triage_queue-perm_example = get_triage_queue-perm clock free inbox
