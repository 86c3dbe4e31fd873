-- ===== src/Tickets/Checkout/Tests.antt =====
-- Runs of tickets/checkout.py, and the lease theorems at them.
use text.Mathlib.TextEquality.{eq_iff}
use amber_claw.Base.{
  ◌≡◌, refl, ◌≢◌, ◌⊎◌, inr, true, ok, raise, List, [], ◌∷◌, arith, String, false, some,
  if◌then◌else◌,
}
use amber_claw.Base.Key.{text_key}
use amber_claw.Base.Dict
use amber_claw.Tickets.Checkout.{
  TicketCheckout, CheckoutManager, already_claimed, store, is_claimed, claim_ticket, Call, query,
  claim, release, run,
}
use amber_claw.Tickets.Checkout.Lease.{Holds, Holds-run}
use amber_claw.Tickets.Checkout.Claim.{is_blocking, granted, claim_ticket-total}

bob_ne_alice : ◌≢◌ {A = String} "bob" "alice"
bob_ne_alice = ground (arith, eq_iff "bob" "alice")

abbrev alices : TicketCheckout
alices = record {
  checkout_id = "CHK-1";
  ticket_id = "T-1";
  claimed_by = "alice";
  claimed_at = 10;
  expires_at = 310;
  is_active = true;
}

abbrev held : CheckoutManager
held = record { checkouts = ("T-1", alices) ∷ [] }

claim_first :
    claim_ticket "CHK-1" 10 10 "T-1" "alice" 300 (record { checkouts = [] }) ≡ (held, ok alices)
unfolding claim_ticket is_claimed Dict.get Dict.set store
claim_first = refl

held-Holds : Holds "T-1" "alice" 310 held
unfolding Dict.get
held-Holds = record {
  entry = alices;
  stored = refl;
  active = refl;
  owner = refl;
  until = omega arith;
}

abbrev others : List Call
others = claim "CHK-2" 20 20 "T-1" "bob" 60 ∷ release "T-1" "bob" ∷ query 300 "T-1" ∷ []

Holds-run_example : Holds "T-1" "alice" 310 (run others held)
Holds-run_example =
    Holds-run "T-1" "alice" 310 others held held-Holds
      ((omega arith, inr bob_ne_alice), (inr bob_ne_alice, (omega arith, tt)))

claim_ticket-total_example :
    let blocked = is_blocking 20 "bob" (Dict.get "T-1" held.checkouts) in
    let chk = granted "CHK-2" 20 "T-1" "bob" 60 in
    let r = claim_ticket "CHK-2" 20 20 "T-1" "bob" 60 held in
    ((blocked ≡ true) × (r ≡ (held, raise already_claimed)))
    ⊎ ((blocked ≡ false)
        × (r.1 ≡ ok chk)
        × (Dict.get "T-1" r.0.checkouts
            ≡ (if text_key.same_key "T-1" "T-1" then some chk else Dict.get "T-1" held.checkouts)))
claim_ticket-total_example = claim_ticket-total "CHK-2" "T-1" "T-1" "bob" 20 20 60 held

-- A lease that is over is taken over, for the duration asked for.
taken_over :
    (claim_ticket "CHK-2" 310 310 "T-1" "bob" 60 held).1 ≡ ok (granted "CHK-2" 310 "T-1" "bob" 60)
unfolding claim_ticket is_claimed Dict.get Dict.set store
taken_over = refl
