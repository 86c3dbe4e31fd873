-- ===== src/Tickets/Checkout/Claim.antt =====
-- Claims, releases and renewals of the leases of tickets/checkout.py.
use text.Mathlib.TextEquality.{eq_iff}
use amber_claw.Base.{
  ℕ, ◌+◌, ◌<◌, ◌≡◌, refl, ◌≢◌, ◌⊎◌, inl, inr, true, some, String, Result, ok, raise, arith, ◌∙◌,
  sym, ap, subst, is_ok, if◌then◌else◌, leb, ltb, Bool, false, not, ◌&&◌, Option, none, Bool-cases,
  Option-cases,
}
use amber_claw.Base.Dict
use amber_claw.Base.Dict.{get-set}
use amber_claw.Base.Key.{text_key, ◌==◌}
use amber_claw.Tickets.Checkout.{
  TicketCheckout, CheckoutManager, Error, already_claimed, not_owner, store, deactivate, is_claimed,
  claim_ticket, renew_lease, release_ticket,
}
use amber_claw.Tickets.Checkout.Lease.{Holds, get-store}

-- A claim by another agent before the deadline of a held ticket raises, and changes nothing.
pub claim_ticket-excluded :
    (id t agent other : String) (deadline now checked lease : ℕ) (m : CheckoutManager)
    → Holds t agent deadline m
    → checked < deadline
    → other ≢ agent
    → claim_ticket id now checked t other lease m ≡ (m, raise already_claimed)
unfolding claim_ticket is_claimed
claim_ticket-excluded id t agent other deadline now checked lease m h before ne =
    grind (arith, h.stored, h.active, h.until, h.owner, eq_iff h.entry.claimed_by other)

abbrev pub granted : String → ℕ → String → String → ℕ → TicketCheckout
granted id now t agent lease = record {
  checkout_id = id;
  ticket_id = t;
  claimed_by = agent;
  claimed_at = now;
  expires_at = now + lease;
  is_active = true;
}

abbrev pub Granted : String → String → ℕ → CheckoutManager × Result Error TicketCheckout → Type 0
Granted t agent deadline r = (is_ok r.1 ≡ true) × Holds t agent deadline r.0

Granted-store :
    (id t agent : String) (now lease : ℕ) (m : CheckoutManager)
    → Granted t agent
        (now + lease)
        (store t (granted id now t agent lease) m, ok (granted id now t agent lease))
unfolding store
Granted-store id t agent now lease m = (
  refl,
  record {
    entry = granted id now t agent lease;
    stored = Dict.get-set_self t (granted id now t agent lease) m.checkouts;
    active = refl;
    owner = refl;
    until = omega arith;
  },
)

Granted-subst :
    (id t agent : String) (now lease : ℕ) (m : CheckoutManager)
    (r : CheckoutManager × Result Error TicketCheckout)
    → r ≡ (store t (granted id now t agent lease) m, ok (granted id now t agent lease))
    → Granted t agent (now + lease) r
Granted-subst id t agent now lease m r e =
    subst (Granted t agent (now + lease)) (sym e) (Granted-store id t agent now lease m)

-- The ticket is under a lease of somebody else that is neither given up nor over.
abbrev pub is_blocking : ℕ → String → Option TicketCheckout → Bool
is_blocking checked agent none = false
is_blocking checked agent (some e) =
    e.is_active && ltb checked e.expires_at && not (e.claimed_by == agent)

-- The entries after a claim that is granted, over the expired entry too.
get-granted :
    (id t u agent : String) (now lease : ℕ) (m : CheckoutManager)
    → Dict.get u (store t (granted id now t agent lease) m).checkouts
      ≡ (if t == u then some (granted id now t agent lease) else Dict.get u m.checkouts)
get-granted id t u agent now lease m = get-store t u (granted id now t agent lease) m

get-granted_over :
    (id t u agent : String) (now lease : ℕ) (e : TicketCheckout) (m : CheckoutManager)
    → Dict.get u (store t (granted id now t agent lease) (store t e m)).checkouts
      ≡ (if t == u then some (granted id now t agent lease) else Dict.get u m.checkouts)
get-granted_over id t u agent now lease e m =
    get-store t u (granted id now t agent lease) (store t e m) ∙ elim (Bool-cases (t == u)) [
      | inl same ↦ rw same refl
      | inr other ↦ rw other (get-store t u e m ∙ rw other refl)
    ]

-- A claim of a ticket that is under another agent's lease, active and not over when it is checked, raises and
-- changes nothing. Every other claim gives the caller a new active lease, from the first clock reading for
-- just the duration asked for, and leaves all other tickets as they are.
pub claim_ticket-total :
    (id t u agent : String) (now checked lease : ℕ) (m : CheckoutManager)
    → let blocked = is_blocking checked agent (Dict.get t m.checkouts) in
      let chk = granted id now t agent lease in
      let r = claim_ticket id now checked t agent lease m in
      ((blocked ≡ true) × (r ≡ (m, raise already_claimed)))
      ⊎ ((blocked ≡ false)
          × (r.1 ≡ ok chk)
          × (Dict.get u r.0.checkouts ≡ (if t == u then some chk else Dict.get u m.checkouts)))
unfolding claim_ticket is_claimed
claim_ticket-total id t u agent now checked lease m = elim (Option-cases (Dict.get t m.checkouts)) [
  | inl free ↦ inr (
    ground (arith, free),
    ground (arith, free),
    by_grant m (get-granted id t u agent now lease m) (ground (arith, free)),
  )
  | inr (e, held) ↦ elim (Bool-cases e.is_active) [
    | inl on ↦ elim (Bool-cases (leb e.expires_at checked)) [
      | inl over ↦ inr (
        ground arith,
        ground arith,
        by_grant (store t (deactivate e) m)
            (get-granted_over id t u agent now lease (deactivate e) m) (ground arith),
      )
      | inr live ↦ elim (Bool-cases (e.claimed_by == agent)) [
        | inl own ↦ inr (
          ground arith,
          ground arith,
          by_grant m (get-granted id t u agent now lease m) (ground arith),
        )
        | inr foreign ↦ inl (ground arith, ground arith)
      ]
    ]
    | inr off ↦ inr (
      ground arith,
      ground arith,
      by_grant m (get-granted id t u agent now lease m) (ground arith),
    )
  ]
]
  where
    by_grant :
        (m' : CheckoutManager)
        → Dict.get u (store t (granted id now t agent lease) m').checkouts
          ≡ (if t == u then some (granted id now t agent lease) else Dict.get u m.checkouts)
        → (claim_ticket id now checked t agent lease m).0
          ≡ store t (granted id now t agent lease) m'
        → Dict.get u (claim_ticket id now checked t agent lease m).0.checkouts
          ≡ (if t == u then some (granted id now t agent lease) else Dict.get u m.checkouts)
    by_grant m' found e = ap (λ x. Dict.get u x.checkouts) e ∙ found

-- After its holder releases a ticket, which reports success, a claim by any agent is granted.
pub claim_ticket-release_ticket :
    (id t agent other : String) (deadline now checked lease : ℕ) (m : CheckoutManager)
    → Holds t agent deadline m
    → ((release_ticket t agent m).1 ≡ ok true)
      × Granted t other
          (now + lease)
          (claim_ticket id now checked t other lease (release_ticket t agent m).0)
unfolding claim_ticket is_claimed release_ticket
claim_ticket-release_ticket id t agent other deadline now checked lease m h = (
  ground (arith, h.stored, h.active, h.owner, eq_iff h.entry.claimed_by agent),
  Granted-subst id t other now lease (store t (deactivate h.entry) m) _ (
      grind (
        arith,
        h.stored,
        h.active,
        h.owner,
        eq_iff h.entry.claimed_by agent,
        eq_iff t t,
        get-store,
      )),
)

-- A renewal by the holder before the deadline succeeds and moves the deadline; by another agent it
-- raises and changes nothing.
pub renew_lease-Holds :
    (t agent other : String) (deadline checked now extend : ℕ) (m : CheckoutManager)
    → Holds t agent deadline m
    → checked < deadline
    → ((other ≡ agent) × Granted t agent (now + extend) (renew_lease checked now t other extend m))
      ⊎ ((other ≢ agent) × (renew_lease checked now t other extend m ≡ (m, raise not_owner)))
unfolding renew_lease is_claimed
renew_lease-Holds t agent other deadline checked now extend m h before =
    elim (Bool-cases (h.entry.claimed_by == other)) [
      | inl own ↦ inl (
        ground (arith, h.owner, eq_iff h.entry.claimed_by other),
        (
          ground (arith, h.stored, h.active, h.until),
          record {
            entry = record h.entry { expires_at = now + extend };
            stored = grind (arith, h.stored, h.active, h.until, eq_iff t t, get-store);
            active = h.active;
            owner = h.owner;
            until = omega arith;
          },
        ),
      )
      | inr foreign ↦ inr (
        ground (arith, h.owner, eq_iff h.entry.claimed_by other),
        ground (arith, h.stored, h.active, h.until),
      )
    ]
