-- ===== src/Tickets/Checkout.antt =====
-- src/amberclaw/tickets/checkout.py. `CheckoutManager` is a record over the dictionary
-- `_checkouts`; each method takes the clock readings it makes, in order, and returns the new
-- manager. Clocks and durations are numbers of ticks.
use amber_claw.Base.{
  ℕ, ◌+◌, Bool, true, false, not, ◌&&◌, Option, none, some, String, Result, ok, raise, leb,
  if◌then◌else◌, List, [], ◌∷◌,
}
use amber_claw.Base.Dict
use amber_claw.Base.Dict.{Dict}
use amber_claw.Base.Key.{text_key, ◌==◌}
pub mod Lease
pub mod Claim
mod Tests

pub record TicketCheckout : Type 0 where
  pub checkout_id : String
  pub ticket_id : String
  pub claimed_by : String
  pub claimed_at : ℕ
  pub expires_at : ℕ
  pub is_active : Bool

pub record CheckoutManager : Type 0 where
  pub checkouts : Dict String TicketCheckout

pub data Error : Type 0 where
  already_claimed no_active_claim not_owner missing_key : Error

-- `self._checkouts[ticket_id] = chk`
unfoldable pub store : String → TicketCheckout → CheckoutManager → CheckoutManager
store t chk m = record { checkouts = Dict.set t chk m.checkouts }

-- `chk.is_active = False`
abbrev pub deactivate : TicketCheckout → TicketCheckout
deactivate chk = record chk { is_active = false }

is_claimed_entry : ℕ → String → CheckoutManager → Option TicketCheckout → CheckoutManager × Bool
is_claimed_entry now t m none = (m, false)
is_claimed_entry now t m (some chk) =
    if not chk.is_active
    then (m, false)
    else if leb chk.expires_at now
    then (store t (deactivate chk) m, false)
    else (m, true)

unfoldable pub is_claimed : ℕ → String → CheckoutManager → CheckoutManager × Bool
unfolding is_claimed_entry
is_claimed now t m = is_claimed_entry now t m (Dict.get t m.checkouts)

unfoldable pub get_active_checkout :
    ℕ → String → CheckoutManager → CheckoutManager × Option TicketCheckout
get_active_checkout now t m =
    let (m', held) = is_claimed now t m in (m', if held then Dict.get t m'.checkouts else none)

-- The check of the holder, on the entry that `self._checkouts[ticket_id]` reads.
refuse_other : Bool → String → Option TicketCheckout → Option Error
refuse_other false agent entry = none
refuse_other true agent none = some missing_key
refuse_other true agent (some existing) =
    if existing.claimed_by == agent then none else some already_claimed

claim_finish :
    Option Error → TicketCheckout → CheckoutManager → CheckoutManager × Result Error TicketCheckout
claim_finish (some e) chk m = (m, raise e)
claim_finish none chk m = (store chk.ticket_id chk m, ok chk)

-- `now` is the first reading, `checked` the one inside `is_claimed`; `id` is the new UUID.
unfoldable pub claim_ticket :
    String
    → ℕ
    → ℕ
    → String
    → String
    → ℕ
    → CheckoutManager
    → CheckoutManager × Result Error TicketCheckout
unfolding refuse_other claim_finish
claim_ticket id now checked t agent lease_seconds m =
    let (m', held) = is_claimed checked t m in
    claim_finish (refuse_other held agent (Dict.get t m'.checkouts))
      (record {
        checkout_id = id;
        ticket_id = t;
        claimed_by = agent;
        claimed_at = now;
        expires_at = now + lease_seconds;
        is_active = true;
      })
      m'

renew_entry :
    ℕ
    → String
    → String
    → ℕ
    → CheckoutManager
    → Bool
    → Option TicketCheckout
    → CheckoutManager × Result Error TicketCheckout
renew_entry now t agent extend m false entry = (m, raise no_active_claim)
renew_entry now t agent extend m true none = (m, raise missing_key)
renew_entry now t agent extend m true (some chk) =
    let renewed = record chk { expires_at = now + extend } in
    if chk.claimed_by == agent then (store t renewed m, ok renewed) else (m, raise not_owner)

-- `checked` is the reading inside `is_claimed`, `now` the one of the new deadline.
unfoldable pub renew_lease :
    ℕ → ℕ → String → String → ℕ → CheckoutManager → CheckoutManager × Result Error TicketCheckout
unfolding renew_entry
renew_lease checked now t agent extend_seconds m =
    let (m', held) = is_claimed checked t m in
    renew_entry now t agent extend_seconds m' held (Dict.get t m'.checkouts)

release_entry :
    String → String → CheckoutManager → Option TicketCheckout → CheckoutManager × Result Error Bool
release_entry t agent m none = (m, ok false)
release_entry t agent m (some chk) =
    if not chk.is_active
    then (m, ok false)
    else if chk.claimed_by == agent
    then (store t (deactivate chk) m, ok true)
    else (m, raise not_owner)

unfoldable pub release_ticket :
    String → String → CheckoutManager → CheckoutManager × Result Error Bool
unfolding release_entry
release_ticket t agent m = release_entry t agent m (Dict.get t m.checkouts)

-- The calls that agents make, with the clock readings of each.
pub data Call : Type 0 where
  query : ℕ → String → Call
  claim : String → ℕ → ℕ → String → String → ℕ → Call
  renew : ℕ → ℕ → String → String → ℕ → Call
  release : String → String → Call

unfoldable pub step : Call → CheckoutManager → CheckoutManager
step (query now t) m = (is_claimed now t m).0
step (claim id now checked t agent lease) m = (claim_ticket id now checked t agent lease m).0
step (renew checked now t agent extend) m = (renew_lease checked now t agent extend m).0
step (release t agent) m = (release_ticket t agent m).0

unfoldable pub run : List Call → CheckoutManager → CheckoutManager
run [] m = m
run (c ∷ cs) m = run cs (step c m)
