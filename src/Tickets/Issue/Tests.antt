-- ===== src/Tickets/Issue/Tests.antt =====
-- Runs of tickets/issue.py, and its theorems at them.
use text.Mathlib.TextEquality.{eq_iff}
use amber_claw.Base.{◌≡◌, refl, none, some, raise, List, [], ◌∷◌, arith}
use amber_claw.Base.Dict
use amber_claw.Base.Key.{contains, truthy}
use amber_claw.Tickets.Issue.{
  Issue, IssueManager, minor, open_, resolved, closed, issue_not_found, store, create_issue,
  get_issue, transition, update_status, assigned, assign, insert_newest, sort_newest, list_issues,
}
use amber_claw.Tickets.Issue.Lifecycle.{
  AllConsistent, Call, update, assigns, step, run, run-AllConsistent,
}

abbrev nothing : IssueManager
nothing = record { issues = [] }

abbrev first : Issue
first = record {
  issue_id = "I-1";
  title = "Disk";
  description = "full";
  status = open_;
  severity = minor;
  assignee = none;
  reporter = "system";
  tags = "ops" ∷ [];
  created_at = 5;
  updated_at = 6;
  resolved_at = none;
}

abbrev one : IssueManager
one = record { issues = ("I-1", first) ∷ [] }

calls : List Call
calls = assigns "I-1" (some "ann") 7 ∷ update "I-1" resolved 8 9 ∷ update "I-1" closed 10 11 ∷ []

create_first :
    create_issue "I-1" 5 6 "Disk" "full" minor "system" none ("ops" ∷ []) nothing ≡ (one, first)
unfolding create_issue store Dict.set
create_first = refl

-- The first resolution time stays.
run-calls :
    get_issue "I-1" (run calls one)
    ≡ some (record first {
      status = closed;
      assignee = some "ann";
      updated_at = 10;
      resolved_at = some 9;
    })
unfolding calls run step get_issue update_status transition assign assigned store Dict.get Dict.set
    truthy
run-calls = refl

update_missing : update_status "I-2" closed 7 8 one ≡ (one, raise issue_not_found)
unfolding update_status get_issue Dict.get
update_missing = refl

one-AllConsistent : AllConsistent one
unfolding Dict.get
one-AllConsistent id i stored = ground (arith, eq_iff "I-1" id)

run-AllConsistent_example : AllConsistent (run calls one)
run-AllConsistent_example = run-AllConsistent calls one one-AllConsistent

list_open : list_issues (some open_) none none (some "ops") one ≡ first ∷ []
unfolding list_issues sort_newest insert_newest contains
list_open = refl
