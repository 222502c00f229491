-- ===== src/Purchases/Checkout.antt =====
-- `createBillingOrder`: the order at the provider, and the payment that is recorded for it.
use url_shortner_system_desi.Common.{
  ℕ, String, Bool, true, false, not, ◌&&◌, ◌||◌, Option, none, some, [], ◌∷◌, Action, find, ltb,
  ◌==◌, if◌then◌else◌, str_eq, pure, gets, throw, throw_if, ◌>>=◌, ◌>>◌, Result, ok, err, Error,
  app_error_with, trim, count_chars, concat,
}
use url_shortner_system_desi.State.{BillingCycle}
use url_shortner_system_desi.Billing.Period.{UtcDate}
use url_shortner_system_desi.Billing.Policy.{PaymentStatus, captured, failed}
use url_shortner_system_desi.Purchases.State.{
  Ledger, Checkout, CheckoutStatus, creating, unknown, of_payment, PaymentRow, locked,
  invalidate_subscription_cache, update_checkouts, is_checkout, is_payment,
}
use url_shortner_system_desi.Purchases.Gateway.{Gateway, Order, request}
use url_shortner_system_desi.Purchases.Activation.{activate}
use url_shortner_system_desi.Purchases.Attempts.{
  is_request_key, payment_of, bad_input, CheckoutInput, has_payment, save_payment,
}
use url_shortner_system_desi.Purchases.Reserve.{reserve}

pub record CheckoutAnswer : Type 0 where
  pub checkout_id : String
  pub order_id : String
  pub amount : ℕ
  pub currency : String
  pub payment_id : String
  pub is_zero_charge : Bool
  pub status : PaymentStatus
  pub fulfillment_status : Option String

abbrev pub is_captured : PaymentStatus → Bool
is_captured captured = true
is_captured _ = false

abbrev pub payment_for : Option String → Ledger → Option PaymentRow
payment_for none s = none
payment_for (some id) s = find (is_payment id) s.payments

abbrev pub answer_of : Checkout → PaymentRow → CheckoutAnswer
answer_of c p = record {
  checkout_id = c.id;
  order_id = p.gateway_order_id;
  amount = p.amount;
  currency = p.currency;
  payment_id = p.id;
  is_zero_charge = p.amount == 0 && is_captured p.status;
  status = p.status;
  fulfillment_status = p.metadata.fulfillment_status;
}

unfoldable pub checkout_response : Checkout → Action Ledger CheckoutAnswer
checkout_response c = do
  found ← gets (payment_for c.payment_id)
  elim found [
    | none ↦ throw (
        app_error_with
          "The checkout result is not confirmed. Refresh billing before creating another payment."
          409 (some (("checkoutId", c.id) ∷ [])) (some "PAYMENT_UNCERTAIN"))
    | some p ↦ pure (answer_of c p)
  ]

abbrev is_code : String → Option String → Bool
is_code code none = false
is_code code (some c) = str_eq c code

-- a checkout whose order was refused, or whose order may exist
abbrev pub unresolved : Error → Checkout → Checkout
unresolved e c = record c {
  status = if is_code "PAYMENT_REJECTED" e.error_code then of_payment failed else unknown;
}

abbrev pub is_creating : CheckoutStatus → Bool
is_creating creating = true
is_creating _ = false

abbrev is_unpaid_attempt : String → Checkout → Bool
is_unpaid_attempt id c = is_checkout id c && is_creating c.status && not (has_payment c)

unfoldable pub resolve_order : Checkout → Result Order → Action Ledger Order
unfolding update_checkouts
resolve_order c (ok order) = pure order
resolve_order c (err e) = do update_checkouts (is_unpaid_attempt c.id) (unresolved e); throw e

module _ (to_utc : ℕ → UtcDate) (from_utc : UtcDate → ℕ) (new_id : ℕ → String)
    (upper : String → String) (id_before : String → String → Bool) (g : Gateway) where
  abbrev pub order_for : Checkout → Result Order
  order_for c =
      if c.amount == 0
      then ok (record {
        id = concat ("free_" ∷ c.id ∷ []);
        amount = 0;
        currency = c.currency;
        receipt = "";
        checkout_id = none;
      })
      else request g (g.create_order c)

  -- the second transaction: the payment, which is activated at once where nothing is to pay
  unfoldable pub record_order : Checkout → String → Action Ledger PaymentRow
  unfolding locked save_payment activate
  record_order c order_id = locked (do
    p ← save_payment new_id (payment_of c order_id) c order_id
    if c.amount == 0 then activate to_utc from_utc new_id p else pure p)

  abbrev with_payment : Checkout → PaymentRow → Checkout
  with_payment c p = record c { payment_id = some p.id }

  unfoldable pub place_order : String → Checkout → Action Ledger CheckoutAnswer
  unfolding resolve_order record_order invalidate_subscription_cache checkout_response request
  place_order user_id c = do
    order ← resolve_order c (order_for c)
    p ← record_order c order.id
    if c.amount == 0 then invalidate_subscription_cache user_id else pure tt
    checkout_response (with_payment c p)

  unfoldable pub create_with :
      String → CheckoutInput → Option BillingCycle → Action Ledger CheckoutAnswer
  unfolding locked reserve checkout_response place_order
  create_with user_id input none = throw bad_input
  create_with user_id input (some cycle) = do
    throw_if (not (is_request_key input.request_key) || ltb 64 (count_chars input.coupon_code))
        bad_input
    r ← locked (
        reserve new_id upper id_before g user_id input (record {
          plan_key = input.plan_key;
          cycle = cycle;
          code = upper (trim input.coupon_code);
        }))
    if r.is_existing then checkout_response r.attempt else place_order user_id r.attempt

  unfoldable pub create_billing_order : String → CheckoutInput → Action Ledger CheckoutAnswer
  unfolding create_with
  create_billing_order user_id input = create_with user_id input input.billing_cycle
