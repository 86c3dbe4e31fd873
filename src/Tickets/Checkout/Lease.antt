-- ===== src/Tickets/Checkout/Lease.antt =====
-- The lease of tickets/checkout.py: who holds a ticket, and how long.
use text.Mathlib.TextEquality.{eq_iff}
use amber_claw.Base.{
  ℕ, ◌≤◌, ◌<◌, ◌≡◌, ◌≢◌, ◌⊎◌, true, some, String, List, [], ◌∷◌, arith, ◌∙◌, if◌then◌else◌, All,
}
use amber_claw.Base.Dict
use amber_claw.Base.Dict.{get-set}
use amber_claw.Base.Key.{text_key, ◌==◌}
use amber_claw.Tickets.Checkout.{
  TicketCheckout, CheckoutManager, store, is_claimed, claim_ticket, renew_lease, release_ticket,
  Call, query, claim, renew, release, step, run,
}

-- `agent` holds ticket `t` at least until `deadline`.
pub record Holds (t agent : String) (deadline : ℕ) (m : CheckoutManager) : Type 0 where
  pub entry : TicketCheckout
  pub stored : Dict.get t m.checkouts ≡ some entry
  pub active : entry.is_active ≡ true
  pub owner : entry.claimed_by ≡ agent
  pub until : deadline ≤ entry.expires_at

-- A call that another agent makes on `t`, or anyone on another ticket, with the clock before `deadline`.
abbrev pub Foreign : String → String → ℕ → Call → Type 0
Foreign t agent deadline (query now u) = now < deadline
Foreign t agent deadline (claim id now checked u other lease) =
    (checked < deadline) × ((u ≢ t) ⊎ (other ≢ agent))
Foreign t agent deadline (renew checked now u other extend) =
    (checked < deadline) × ((u ≢ t) ⊎ (other ≢ agent))
Foreign t agent deadline (release u other) = (u ≢ t) ⊎ (other ≢ agent)

pub get-store :
    (u t : String) (c : TicketCheckout) (m : CheckoutManager)
    → Dict.get t (store u c m).checkouts ≡ (if u == t then some c else Dict.get t m.checkouts)
unfolding store
get-store u t c m = get-set u t c m.checkouts

module _ (t agent : String) (deadline : ℕ) (m : CheckoutManager)
    (h : Holds t agent deadline m) where
  is_claimed_kept :
      (now : ℕ) (u : String)
      → now < deadline
      → Dict.get t (is_claimed now u m).0.checkouts ≡ Dict.get t m.checkouts
  unfolding is_claimed
  is_claimed_kept now u before = grind (arith, h.stored, h.active, h.until, eq_iff u t, get-store)

  claim_kept :
      (id : String) (now checked : ℕ) (u other : String) (lease : ℕ)
      → checked < deadline
      → (u ≢ t) ⊎ (other ≢ agent)
      → Dict.get t (claim_ticket id now checked u other lease m).0.checkouts
        ≡ Dict.get t m.checkouts
  unfolding claim_ticket is_claimed
  claim_kept id now checked u other lease before foreign = grind (
    arith,
    h.stored,
    h.active,
    h.until,
    h.owner,
    eq_iff u t,
    eq_iff h.entry.claimed_by other,
    get-store,
  )

  renew_kept :
      (checked now : ℕ) (u other : String) (extend : ℕ)
      → checked < deadline
      → (u ≢ t) ⊎ (other ≢ agent)
      → Dict.get t (renew_lease checked now u other extend m).0.checkouts ≡ Dict.get t m.checkouts
  unfolding renew_lease is_claimed
  renew_kept checked now u other extend before foreign = grind (
    arith,
    h.stored,
    h.active,
    h.until,
    h.owner,
    eq_iff u t,
    eq_iff h.entry.claimed_by other,
    get-store,
  )

  release_kept :
      (u other : String)
      → (u ≢ t) ⊎ (other ≢ agent)
      → Dict.get t (release_ticket u other m).0.checkouts ≡ Dict.get t m.checkouts
  unfolding release_ticket
  release_kept u other foreign = grind (
    arith,
    h.stored,
    h.active,
    h.until,
    h.owner,
    eq_iff u t,
    eq_iff h.entry.claimed_by other,
    get-store,
  )

  step_kept :
      (c : Call)
      → Foreign t agent deadline c
      → Dict.get t (step c m).checkouts ≡ Dict.get t m.checkouts
  unfolding step
  step_kept (query now u) f = is_claimed_kept now u f
  step_kept (claim id now checked u other lease) f = claim_kept id now checked u other lease f.0 f.1
  step_kept (renew checked now u other extend) f = renew_kept checked now u other extend f.0 f.1
  step_kept (release u other) f = release_kept u other f

  Holds-step : (c : Call) → Foreign t agent deadline c → Holds t agent deadline (step c m)
  Holds-step c f = record {
    entry = h.entry;
    stored = step_kept c f ∙ h.stored;
    active = h.active;
    owner = h.owner;
    until = h.until;
  }

-- While an agent holds a ticket until a deadline, no sequence of calls of other agents on that
-- ticket, or of anyone on other tickets, made with the clock before the deadline, takes the lease away.
pub Holds-run :
    (t agent : String) (deadline : ℕ) (cs : List Call) (m : CheckoutManager)
    → Holds t agent deadline m
    → All (Foreign t agent deadline) cs
    → Holds t agent deadline (run cs m)
unfolding run
Holds-run t agent deadline [] m h f = h
Holds-run t agent deadline (c ∷ cs) m h f =
    Holds-run t agent deadline cs (step c m) (Holds-step t agent deadline m h c f.0) f.1
