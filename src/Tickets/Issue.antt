-- ===== src/Tickets/Issue.antt =====
-- src/amberclaw/tickets/issue.py. `IssueManager` is a record over the dictionary `_issues`; each
-- method takes the new UUID and the clock readings it makes, in order. `metadata`, which no method
-- reads, is left out.
use amber_claw.Base.{
  ℕ, ◌+◌, Bool, true, false, not, ◌&&◌, ◌||◌, Option, none, some, String, Result, ok, raise, leb,
  if◌then◌else◌, List, [], ◌∷◌, filter,
}
use amber_claw.Base.Dict
use amber_claw.Base.Dict.{Dict}
use amber_claw.Base.Key.{Key, text_key, ◌==◌, contains, truthy}
pub mod Lifecycle
pub mod Listing
mod Tests

pub data IssueStatus : Type 0 where
  open_ triaged in_progress blocked resolved closed : IssueStatus

pub data IssueSeverity : Type 0 where
  critical major minor trivial : IssueSeverity

-- The place of a constructor in its enumeration, by which two are compared.
abbrev status_index : IssueStatus → ℕ
status_index open_ = 0
status_index triaged = 1
status_index in_progress = 2
status_index blocked = 3
status_index resolved = 4
status_index closed = 5

abbrev pub severity_index : IssueSeverity → ℕ
severity_index critical = 0
severity_index major = 1
severity_index minor = 2
severity_index trivial = 3

abbrev same : ℕ → ℕ → Bool
same a b = leb a b && leb b a

pub record Issue : Type 0 where
  pub issue_id : String
  pub title : String
  pub description : String
  pub status : IssueStatus
  pub severity : IssueSeverity
  pub assignee : Option String
  pub reporter : String
  pub tags : List String
  pub created_at : ℕ
  pub updated_at : ℕ
  pub resolved_at : Option ℕ

pub record IssueManager : Type 0 where
  pub issues : Dict String Issue

pub data Error : Type 0 where
  issue_not_found : Error

unfoldable pub store : String → Issue → IssueManager → IssueManager
store id i m = record { issues = Dict.set id i m.issues }

unfoldable pub create_issue :
    String
    → ℕ
    → ℕ
    → String
    → String
    → IssueSeverity
    → String
    → Option String
    → List String
    → IssueManager
    → IssueManager × Issue
create_issue id created updated title description severity reporter assignee tags m =
    let issue : Issue = record {
      issue_id = id;
      title = title;
      description = description;
      status = open_;
      severity = severity;
      assignee = assignee;
      reporter = reporter;
      tags = tags;
      created_at = created;
      updated_at = updated;
      resolved_at = none;
    } in
    (store id issue m, issue)

unfoldable pub get_issue : String → IssueManager → Option Issue
get_issue id m = Dict.get id m.issues

-- `status in (RESOLVED, CLOSED)`
abbrev pub is_done : IssueStatus → Bool
is_done resolved = true
is_done closed = true
is_done _ = false

-- `not issue.resolved_at`: a time of 0 is false too.
abbrev pub is_unset : Option ℕ → Bool
is_unset none = true
is_unset (some n) = leb n 0

-- The branches of `update_status`, on the issue found; `now` is the third clock reading.
unfoldable pub transition : IssueStatus → ℕ → ℕ → Issue → Issue
transition status updated now i =
    let i' = record i { status = status; updated_at = updated } in
    if is_done status && is_unset i.resolved_at
    then record i' { resolved_at = some now }
    else if not (is_done status)
    then record i' { resolved_at = none }
    else i'

update_found :
    String → IssueStatus → ℕ → ℕ → IssueManager → Option Issue → IssueManager × Result Error Issue
update_found id status updated now m none = (m, raise issue_not_found)
update_found id status updated now m (some i) =
    let i' = transition status updated now i in (store id i' m, ok i')

unfoldable pub update_status :
    String → IssueStatus → ℕ → ℕ → IssueManager → IssueManager × Result Error Issue
unfolding update_found
update_status id status updated now m = update_found id status updated now m (get_issue id m)

-- `if assignee`
abbrev pub is_given : Option String → Bool
is_given none = false
is_given (some s) = truthy s

abbrev pub is_open : IssueStatus → Bool
is_open open_ = true
is_open _ = false

unfoldable pub assigned : Option String → ℕ → Issue → Issue
assigned assignee updated i =
    let i' = record i { assignee = assignee; updated_at = updated } in
    if is_given assignee && is_open i.status then record i' { status = in_progress } else i'

assign_found :
    String → Option String → ℕ → IssueManager → Option Issue → IssueManager × Result Error Issue
assign_found id assignee updated m none = (m, raise issue_not_found)
assign_found id assignee updated m (some i) =
    let i' = assigned assignee updated i in (store id i' m, ok i')

unfoldable pub assign :
    String → Option String → ℕ → IssueManager → IssueManager × Result Error Issue
unfolding assign_found
assign id assignee updated m = assign_found id assignee updated m (get_issue id m)

-- `i.assignee == assignee` for an assignee that is given
abbrev has_assignee : String → Option String → Bool
has_assignee a none = false
has_assignee a (some b) = b == a

abbrev pub by_status : Option IssueStatus → Issue → Bool
by_status none i = true
by_status (some s) i = same (status_index i.status) (status_index s)

abbrev pub by_severity : Option IssueSeverity → Issue → Bool
by_severity none i = true
by_severity (some s) i = same (severity_index i.severity) (severity_index s)

abbrev pub by_assignee : Option String → Issue → Bool
by_assignee none i = true
by_assignee (some a) i = has_assignee a i.assignee

abbrev pub by_tag : Option String → Issue → Bool
by_tag none i = true
by_tag (some t) i = contains t i.tags

-- `sorted(..., key=created_at, reverse=True)` is stable: equal keys keep their order.
unfoldable pub insert_newest : Issue → List Issue → List Issue
insert_newest i [] = i ∷ []
insert_newest i (j ∷ js) =
    if leb j.created_at i.created_at then i ∷ j ∷ js else j ∷ insert_newest i js

unfoldable pub sort_newest : List Issue → List Issue
sort_newest [] = []
sort_newest (i ∷ is) = insert_newest i (sort_newest is)

unfoldable pub list_issues :
    Option IssueStatus
    → Option IssueSeverity
    → Option String
    → Option String
    → IssueManager
    → List Issue
list_issues status severity assignee tag m = sort_newest (
    filter (by_tag tag) (
      filter (by_assignee assignee)
        (filter (by_severity severity) (filter (by_status status) (Dict.values m.issues)))))
