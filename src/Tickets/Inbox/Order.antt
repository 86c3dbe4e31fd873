-- ===== src/Tickets/Inbox/Order.antt =====
-- The order of the triage queue of tickets/inbox.py.
use mathlib.Core.List.{Perm}
use mathlib.Core.List.Perm
use amber_claw.Base.{◌≡◌, true, false, List, [], ◌∷◌, Bool-cases, inl, inr, arith}
use amber_claw.Tickets.Issue.{Issue}
use amber_claw.Tickets.Inbox.{before, insert_urgent, sort_urgent}

before-total : (i j : Issue) → before i j ≡ false → before j i ≡ true
before-total i j h = ground arith

-- No issue stands before a more severe one, nor before an older one of its severity.
abbrev pub UrgentFirst : List Issue → Type 0
UrgentFirst [] = Unit {0}
UrgentFirst (i ∷ []) = Unit {0}
UrgentFirst (i ∷ j ∷ js) = (before i j ≡ true) × UrgentFirst (j ∷ js)

insert_urgent-perm : (i : Issue) (js : List Issue) → Perm (insert_urgent i js) (i ∷ js)
unfolding insert_urgent
insert_urgent-perm i [] = Perm.refl (i ∷ [])
insert_urgent-perm i (j ∷ js) = elim (Bool-cases (before i j)) [
  | inl e ↦ rw e (Perm.refl (i ∷ j ∷ js))
  | inr e ↦ rw e (Perm.trans (Perm.cons j (insert_urgent-perm i js)) (Perm.swap i j js))
]

pub sort_urgent-perm : (is : List Issue) → Perm (sort_urgent is) is
unfolding sort_urgent
sort_urgent-perm [] = Perm.nil
sort_urgent-perm (i ∷ is) =
    Perm.trans (insert_urgent-perm i (sort_urgent is)) (Perm.cons i (sort_urgent-perm is))

insert_urgent-UrgentFirst :
    (i : Issue) (js : List Issue) → UrgentFirst js → UrgentFirst (insert_urgent i js)
unfolding insert_urgent
insert_urgent-UrgentFirst i [] h = tt
insert_urgent-UrgentFirst i (j ∷ []) h = elim (Bool-cases (before i j)) [
  | inl e ↦ rw e (e, tt)
  | inr e ↦ rw e (before-total i j e, tt)
]
insert_urgent-UrgentFirst i (j ∷ k ∷ js) h = elim (Bool-cases (before i j)) [
  | inl e ↦ rw e (e, h)
  | inr e ↦ rw e (elim (Bool-cases (before i k)) [
    | inl d ↦ rw d (before-total i j e, (d, h.1))
    | inr d ↦ rw d (h.0, (rw d at (insert_urgent-UrgentFirst i (k ∷ js) h.1)))
  ])
]

pub sort_urgent-UrgentFirst : (is : List Issue) → UrgentFirst (sort_urgent is)
unfolding sort_urgent
sort_urgent-UrgentFirst [] = tt
sort_urgent-UrgentFirst (i ∷ is) =
    insert_urgent-UrgentFirst i (sort_urgent is) (sort_urgent-UrgentFirst is)
