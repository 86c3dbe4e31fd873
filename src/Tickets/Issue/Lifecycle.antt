-- ===== src/Tickets/Issue/Lifecycle.antt =====
-- The life cycle in tickets/issue.py: a resolution time is kept exactly for finished issues.
use amber_claw.Base.{
  ℕ, ◌≡◌, refl, Option, some, String, List, [], ◌∷◌, arith, Option-cases, inl, inr,
}
use amber_claw.Base.Dict
use amber_claw.Base.Dict.{is_some, get-set}
use amber_claw.Base.Key.{text_key}
use amber_claw.Tickets.Issue.{
  Issue, IssueManager, IssueStatus, IssueSeverity, is_done, store, create_issue, get_issue,
  transition, update_status, assigned, assign,
}

-- An issue has a resolution time exactly when its status is resolved or closed.
abbrev pub IsConsistent : Issue → Type 0
IsConsistent i = is_some i.resolved_at ≡ is_done i.status

abbrev pub AllConsistent : IssueManager → Type 0
AllConsistent m = (id : String) (i : Issue) → Dict.get id m.issues ≡ some i → IsConsistent i

transition-IsConsistent :
    (s : IssueStatus) (updated now : ℕ) (i : Issue)
    → IsConsistent i
    → IsConsistent (transition s updated now i)
unfolding transition
transition-IsConsistent s updated now i h = ground arith

assigned-IsConsistent :
    (a : Option String) (updated : ℕ) (i : Issue)
    → IsConsistent i
    → IsConsistent (assigned a updated i)
unfolding assigned
assigned-IsConsistent a updated i h = ground arith

store-AllConsistent :
    (id : String) (i : Issue) (m : IssueManager)
    → IsConsistent i
    → AllConsistent m
    → AllConsistent (store id i m)
unfolding store
store-AllConsistent id i m h all j k stored = ground (arith, get-set id j i m.issues, all j k)

pub data Call : Type 0 where
  create :
      String → ℕ → ℕ → String → String → IssueSeverity → String → Option String → List String → Call
  update : String → IssueStatus → ℕ → ℕ → Call
  assigns : String → Option String → ℕ → Call

unfoldable pub step : Call → IssueManager → IssueManager
step (create id created updated title text severity reporter assignee tags) m =
    (create_issue id created updated title text severity reporter assignee tags m).0
step (update id status updated now) m = (update_status id status updated now m).0
step (assigns id assignee updated) m = (assign id assignee updated m).0

unfoldable pub run : List Call → IssueManager → IssueManager
run [] m = m
run (c ∷ cs) m = run cs (step c m)

update-AllConsistent :
    (id : String) (status : IssueStatus) (updated now : ℕ) (m : IssueManager)
    → AllConsistent m
    → AllConsistent (update_status id status updated now m).0
unfolding update_status get_issue
update-AllConsistent id status updated now m h = elim (Option-cases (Dict.get id m.issues)) [
  | inl e ↦ rw (e, update_status) h
  | inr (i, e) ↦
      rw (e, update_status)
        (store-AllConsistent id _ m (transition-IsConsistent status updated now i (h id i e)) h)
]

assign-AllConsistent :
    (id : String) (a : Option String) (updated : ℕ) (m : IssueManager)
    → AllConsistent m
    → AllConsistent (assign id a updated m).0
unfolding assign get_issue
assign-AllConsistent id a updated m h = elim (Option-cases (Dict.get id m.issues)) [
  | inl e ↦ rw (e, assign) h
  | inr (i, e) ↦
      rw (e, assign) (store-AllConsistent id _ m (assigned-IsConsistent a updated i (h id i e)) h)
]

step-AllConsistent : (c : Call) (m : IssueManager) → AllConsistent m → AllConsistent (step c m)
unfolding step create_issue
step-AllConsistent (create id c u title text sev rep a tags) m h = store-AllConsistent id _ m refl h
step-AllConsistent (update id status updated now) m h =
    update-AllConsistent id status updated now m h
step-AllConsistent (assigns id a updated) m h = assign-AllConsistent id a updated m h

-- Whatever calls create, update and assign issues, every stored issue has a resolution time exactly
-- when it is resolved or closed, if that held before.
pub run-AllConsistent :
    (cs : List Call) (m : IssueManager) → AllConsistent m → AllConsistent (run cs m)
unfolding run
run-AllConsistent [] m h = h
run-AllConsistent (c ∷ cs) m h = run-AllConsistent cs (step c m) (step-AllConsistent c m h)
