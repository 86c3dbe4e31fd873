-- ===== src/Tickets/Inbox/Queue.antt =====
-- What stands in the triage queue of tickets/inbox.py, and in which order.
use mathlib.Core.List.{Perm}
use mathlib.Core.List.Perm
use amber_claw.Base.{
  ℕ, ◌≡◌, refl, sym, ap, ◌∙◌, subst, ◌⊎◌, Bool, true, false, not, ◌&&◌, ◌||◌, Option, none, some,
  String, leb, List, [], ◌∷◌, filter, keep_if, Bool-cases, Option-cases, inl, inr, arith,
}
use amber_claw.Base.Dict
use amber_claw.Base.Dict.{get-set}
use amber_claw.Base.Key.{text_key, ◌==◌}
use amber_claw.Tickets.Checkout
use amber_claw.Tickets.Checkout.{CheckoutManager, TicketCheckout, is_claimed, deactivate}
use amber_claw.Tickets.Issue.{Issue, is_given, list_issues}
use amber_claw.Tickets.Issue.Listing.{matches, list_issues-perm}
use amber_claw.Base.Perms.{filter-perm}
use amber_claw.Tickets.Inbox.Order.{UrgentFirst, sort_urgent-perm, sort_urgent-UrgentFirst}
use amber_claw.Tickets.Inbox.{InboxFilter, TicketInbox, visit, select, get_triage_queue}

-- An issue is shown unless it is to be unassigned and is not, or is to be free and is claimed.
abbrev pub shown : (String → ℕ) → InboxFilter → CheckoutManager → Issue → Bool
shown clock f m i =
    not (f.unassigned_only && is_given i.assignee)
    && (f.include_claimed || not (is_claimed (clock i.issue_id) i.issue_id m).1)

-- Looking at one lease changes what is read of none.
abbrev Agrees : (String → ℕ) → CheckoutManager → CheckoutManager → Type 0
Agrees clock m m' = (t : String) → (is_claimed (clock t) t m').1 ≡ (is_claimed (clock t) t m).1

-- What is read of a lease.
abbrev held : ℕ → Option TicketCheckout → Bool
held now none = false
held now (some chk) = chk.is_active && not (leb chk.expires_at now)

is_claimed-held :
    (now : ℕ) (t : String) (m : CheckoutManager)
    → (is_claimed now t m).1 ≡ held now (Dict.get t m.checkouts)
unfolding is_claimed
is_claimed-held now t m = elim (Option-cases (Dict.get t m.checkouts)) [
  | inl absent ↦ rw (absent, is_claimed) refl
  | inr (chk, found) ↦ rw (found, is_claimed) (ground arith)
]

is_claimed-store :
    (now : ℕ) (u : String) (m : CheckoutManager)
    → ((is_claimed now u m).0 ≡ m)
      ⊎ ((chk : TicketCheckout) × (Dict.get u m.checkouts ≡ some chk)
          × (leb chk.expires_at now ≡ true)
          × ((is_claimed now u m).0 ≡ Checkout.store u (deactivate chk) m))
unfolding is_claimed
is_claimed-store now u m = elim (Option-cases (Dict.get u m.checkouts)) [
  | inl absent ↦ inl (rw (absent, is_claimed) refl)
  | inr (chk, found) ↦ elim (Bool-cases (chk.is_active && leb chk.expires_at now)) [
    | inl late ↦
        inr (chk, found, ground (arith, late), rw (found, is_claimed) (ground (arith, late)))
    | inr early ↦ inl (rw (found, is_claimed) (ground (arith, early)))
  ]
]

-- A lease that is switched off on being looked at has expired.
held-store :
    (clock : String → ℕ) (u t : String) (chk : TicketCheckout) (m : CheckoutManager)
    → Dict.get u m.checkouts ≡ some chk
    → leb chk.expires_at (clock u) ≡ true
    → held (clock t) (Dict.get t (Checkout.store u (deactivate chk) m).checkouts)
      ≡ held (clock t) (Dict.get t m.checkouts)
unfolding Checkout.store
held-store clock u t chk m found late = elim (Bool-cases (u == t)) [
  | inr other ↦ rw (get-set, other) refl
  | inl same ↦
      rw (get-set, same)
        (sym (
          ap (λ k. held (clock k) (Dict.get k m.checkouts))
            (sym ((text_key.same_key_iff u t).0 same))
          ∙ ap (held (clock u)) found
          ∙ ground (arith, late)))
]

is_claimed-Agrees :
    (clock : String → ℕ) (u : String) (m : CheckoutManager)
    → Agrees clock m (is_claimed (clock u) u m).0
is_claimed-Agrees clock u m t = elim (is_claimed-store (clock u) u m) [
  | inl same ↦ ap (λ n. (is_claimed (clock t) t n).1) same
  | inr (chk, found, late, off) ↦
      ap (λ n. (is_claimed (clock t) t n).1) off
      ∙ is_claimed-held (clock t) t (Checkout.store u (deactivate chk) m)
      ∙ held-store clock u t chk m found late
      ∙ sym (is_claimed-held (clock t) t m)
]

visit-Agrees :
    (clock : String → ℕ) (f : InboxFilter) (i : Issue) (m : CheckoutManager)
    → Agrees clock m (visit clock f i m).0
unfolding visit
visit-Agrees clock f i m t = ground (arith, is_claimed-Agrees clock i.issue_id m t)

visit_lem :
    (clock : String → ℕ) (f : InboxFilter) (i : Issue) (m : CheckoutManager)
    → (visit clock f i m).1 ≡ shown clock f m i
unfolding visit
visit_lem clock f i m = ground arith

shown-Agrees :
    (clock : String → ℕ) (f : InboxFilter) (m m' : CheckoutManager) (is : List Issue)
    → Agrees clock m m'
    → filter (shown clock f m') is ≡ filter (shown clock f m) is
shown-Agrees clock f m m' [] h = refl
shown-Agrees clock f m m' (i ∷ is) h =
    rw (h i.issue_id) (ap (keep_if (shown clock f m i) i) (shown-Agrees clock f m m' is h))

-- The loop over the issues is one filter by the leases as they stood before it.
select-filter :
    (clock : String → ℕ) (f : InboxFilter) (is : List Issue) (m : CheckoutManager)
    → (select clock f is m).1 ≡ filter (shown clock f m) is
unfolding select
select-filter clock f [] m = refl
select-filter clock f (i ∷ is) m =
    rw
      (
        visit_lem clock f i m,
        select-filter clock f is (visit clock f i m).0,
        shown-Agrees clock f m (visit clock f i m).0 is (visit-Agrees clock f i m),
      )
      (ground arith)

-- The triage queue holds exactly the issues that match the filter: those that match its four conditions, are
-- unassigned if that is asked for, and, if claimed ones are left out, whose ticket is held by nobody under a
-- lease that has not expired at the reading of the clock, each as often as it is stored. No issue stands
-- before a more severe one, nor before an older one of the same severity.
pub get_triage_queue-perm :
    (clock : String → ℕ) (f : InboxFilter) (inbox : TicketInbox)
    → Perm (get_triage_queue clock f inbox).1 (
        filter (shown clock f inbox.checkout_manager) (
          filter
            (matches f.status f.severity f.assignee f.tag)
            (Dict.values inbox.issue_manager.issues)))
      × UrgentFirst (get_triage_queue clock f inbox).1
unfolding get_triage_queue
get_triage_queue-perm clock f inbox = (
  Perm.trans (sort_urgent-perm _) (
      subst (λ l. Perm l wanted) (sym (select-filter clock f listed inbox.checkout_manager))
        (filter-perm (shown clock f inbox.checkout_manager)
          (list_issues-perm f.status f.severity f.assignee f.tag inbox.issue_manager).0)),
  sort_urgent-UrgentFirst _,
)
  where
    listed : List Issue
    listed = list_issues f.status f.severity f.assignee f.tag inbox.issue_manager

    wanted : List Issue
    wanted = filter (shown clock f inbox.checkout_manager) (
        filter (matches f.status f.severity f.assignee f.tag)
          (Dict.values inbox.issue_manager.issues))
