-- ===== src/Tickets/Issue/Listing.antt =====
-- The query of tickets/issue.py.
use mathlib.Core.List.{Perm}
use mathlib.Core.List.Perm
use amber_claw.Base.{
  ◌≡◌, Option, String, List, [], ◌∷◌, arith, filter-filter, subst, sym, Bool, ◌&&◌, ◌≤◌, filter,
  leb, Bool-cases, inl, inr,
}
use amber_claw.Base.Dict
use amber_claw.Tickets.Issue.{
  Issue, IssueManager, IssueStatus, IssueSeverity, by_status, by_severity, by_assignee, by_tag,
  insert_newest, sort_newest, list_issues,
}

-- One condition in place of the four that are applied in turn.
abbrev pub matches :
    Option IssueStatus → Option IssueSeverity → Option String → Option String → Issue → Bool
matches status severity assignee tag i =
    by_status status i && (by_severity severity i && (by_assignee assignee i && by_tag tag i))

-- No issue stands before one that was created later.
abbrev pub NewestFirst : List Issue → Type 0
NewestFirst [] = Unit {0}
NewestFirst (i ∷ []) = Unit {0}
NewestFirst (i ∷ j ∷ js) = (j.created_at ≤ i.created_at) × NewestFirst (j ∷ js)

insert_newest-perm : (i : Issue) (js : List Issue) → Perm (insert_newest i js) (i ∷ js)
unfolding insert_newest
insert_newest-perm i [] = Perm.refl (i ∷ [])
insert_newest-perm i (j ∷ js) = elim (Bool-cases (leb j.created_at i.created_at)) [
  | inl e ↦ rw e (Perm.refl (i ∷ j ∷ js))
  | inr e ↦ rw e (Perm.trans (Perm.cons j (insert_newest-perm i js)) (Perm.swap i j js))
]

sort_newest-perm : (is : List Issue) → Perm (sort_newest is) is
unfolding sort_newest
sort_newest-perm [] = Perm.nil
sort_newest-perm (i ∷ is) =
    Perm.trans (insert_newest-perm i (sort_newest is)) (Perm.cons i (sort_newest-perm is))

insert_newest-NewestFirst :
    (i : Issue) (js : List Issue) → NewestFirst js → NewestFirst (insert_newest i js)
unfolding insert_newest
insert_newest-NewestFirst i [] h = tt
insert_newest-NewestFirst i (j ∷ []) h = ground arith
insert_newest-NewestFirst i (j ∷ k ∷ js) h =
    ground (arith, insert_newest-NewestFirst i (k ∷ js) h.1)

sort_newest-NewestFirst : (is : List Issue) → NewestFirst (sort_newest is)
unfolding sort_newest
sort_newest-NewestFirst [] = tt
sort_newest-NewestFirst (i ∷ is) =
    insert_newest-NewestFirst i (sort_newest is) (sort_newest-NewestFirst is)

-- The query returns the issues that match every filter given, each as often as it is stored, and
-- no issue stands before one that was created later.
pub list_issues-perm :
    (status : Option IssueStatus) (severity : Option IssueSeverity) (assignee tag : Option String)
    (m : IssueManager)
    → Perm
        (list_issues status severity assignee tag m)
        (filter (matches status severity assignee tag) (Dict.values m.issues))
      × NewestFirst (list_issues status severity assignee tag m)
unfolding list_issues
list_issues-perm status severity assignee tag m = (
  subst
      (λ l.
        Perm (sort_newest l) (filter (matches status severity assignee tag) (Dict.values m.issues)))
      (sym chain) (sort_newest-perm _),
  sort_newest-NewestFirst _,
)
  where
    chain :
        filter (by_tag tag) (
          filter
            (by_assignee assignee)
            (filter (by_severity severity) (filter (by_status status) (Dict.values m.issues))))
        ≡ filter (matches status severity assignee tag) (Dict.values m.issues)
    chain = rw (filter-filter, filter-filter, filter-filter)
