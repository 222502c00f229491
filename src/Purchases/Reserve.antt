-- ===== src/Purchases/Reserve.antt =====
-- The first transaction of `createBillingOrder`. `id_before` is the order of texts in the database,
-- `upper` is `String.prototype.toUpperCase`.
use url_shortner_system_desi.Common.{
  ℕ, ◌+◌, String, Bool, true, false, not, ◌&&◌, ◌||◌, Option, none, some, [], ◌∷◌, ◌++◌, Action,
  best, find, any, count, leb, ltb, ◌==◌, if◌then◌else◌, str_eq, pure, gets, throw, throw_if, ◌>>=◌,
  ◌>>◌, Result, ok, err, Error, app_error, app_error_with, trim, is_empty,
}
use url_shortner_system_desi.State.{sql_eq}
use url_shortner_system_desi.Billing.Policy.{plan_amount, discounted_amount, Coupon}
use url_shortner_system_desi.Purchases.State.{
  Ledger, PricedPlan, CouponRow, Checkout, creating, Fingerprint, PaymentRow,
}
use url_shortner_system_desi.Purchases.Gateway.{Gateway}
use url_shortner_system_desi.Purchases.Coupons.{validate_billing_coupon}
use url_shortner_system_desi.Purchases.Attempts.{
  has_payment, is_failed, is_attempt, is_open_refund_of, CheckoutInput, is_open_checkout,
  same_fingerprint, is_purchase_of,
}

abbrev payment_id_of : Option PaymentRow → Option String
payment_id_of none = none
payment_id_of (some p) = some p.id

abbrev same_option : Option String → Option String → Bool
same_option none none = true
same_option (some a) (some b) = str_eq a b
same_option _ _ = false

abbrev created_last : Checkout → Checkout → Bool
created_last c d = ltb d.created_at c.created_at

abbrev terms_of : Option CouponRow → Option Coupon
terms_of none = none
terms_of (some c) = some c.terms

abbrev coupon_id_of : Option CouponRow → Option String
coupon_id_of none = none
coupon_id_of (some c) = some c.id

-- the attempt, and whether it was there before
pub record Reservation : Type 0 where
  pub attempt : Checkout
  pub is_existing : Bool

abbrev pub existing : Checkout → Reservation
existing c = record { attempt = c; is_existing = true }

-- a second request under the same key
unfoldable pub reuse : Fingerprint → Checkout → Action Ledger Reservation
reuse fingerprint c = do
  throw_if (not (same_fingerprint c.fingerprint fingerprint))
      (app_error "This checkout key belongs to a different purchase." 409)
  throw_if (is_failed c.status && not (has_payment c)) (
      app_error_with "This checkout was rejected. Start a new checkout." 409 none
        (some "CHECKOUT_REJECTED"))
  pure (existing c)

-- a checkout of the user that is still open
unfoldable pub resume : Fingerprint → Checkout → Action Ledger Reservation
resume fingerprint c =
    if same_fingerprint c.fingerprint fingerprint && has_payment c
    then pure (existing c)
    else throw (
        app_error_with
          "A checkout is already open. Check its status or finish it before starting a different purchase."
          409 (some (("checkoutId", c.id) ∷ [])) (some "CHECKOUT_IN_PROGRESS"))

abbrev pub is_holding : String → Checkout → Bool
is_holding coupon_id c = sql_eq c.coupon_id (some coupon_id) && is_open_checkout c

unfoldable pub check_reserved : CouponRow → Action Ledger (Unit {0})
check_reserved c = elim c.max_redemptions [
  | none ↦ pure tt
  | some most ↦ (do
    reserved ← gets (λ (s : Ledger). count (is_holding c.id) s.checkouts)
    throw_if (leb most (c.times_redeemed + reserved))
        (app_error "This coupon is fully reserved by existing checkouts. Try another code." 409))
]

abbrev pub read_amount : Result ℕ → Action Ledger ℕ
read_amount (ok n) = pure n
read_amount (err e) = throw e

abbrev discounted : Option Coupon → Result ℕ → Result ℕ
discounted c (err e) = err e
discounted c (ok n) = discounted_amount n c

abbrev pub payments_unavailable : Error
payments_unavailable =
    app_error_with "Checkout is currently unavailable. Contact billing support." 409 none
      (some "PAYMENTS_UNAVAILABLE")

module _ (new_id : ℕ → String) where
  unfoldable pub open_checkout :
      String → String → Fingerprint → PricedPlan → ℕ → Option CouponRow → Action Ledger Reservation
  open_checkout user_id key fingerprint plan amount coupon s =
      let c : Checkout = record {
        id = new_id s.drawn;
        user_id = user_id;
        request_key = key;
        fingerprint = fingerprint;
        plan_id = plan.id;
        billing_cycle = fingerprint.cycle;
        amount = amount;
        currency = plan.currency;
        coupon_id = coupon_id_of coupon;
        status = creating;
        payment_id = none;
        created_at = s.now;
      } in
      (
        ok (record { attempt = c; is_existing = false }),
        record s { drawn = s.drawn + 1; checkouts = s.checkouts ++ c ∷ [] },
      )

  module _ (upper : String → String) (id_before : String → String → Bool) (g : Gateway) where
    abbrev latest_purchase : String → Ledger → Option PaymentRow
    latest_purchase user_id s =
        best
          (λ (p : PaymentRow) (q : PaymentRow).
            ltb q.created_at p.created_at || p.created_at == q.created_at && id_before q.id p.id)
          (is_purchase_of user_id) s.payments

    unfoldable pub take_coupon : String → String → String → Action Ledger (Option CouponRow)
    unfolding validate_billing_coupon check_reserved
    take_coupon code plan_key user_id = if is_empty (trim code) then pure none else do
      first ← validate_billing_coupon upper code plan_key user_id
      fresh ← validate_billing_coupon upper code plan_key user_id
      check_reserved fresh
      pure (some first)

    unfoldable pub price_checkout :
        String → CheckoutInput → Fingerprint → Option PricedPlan → Action Ledger Reservation
    unfolding take_coupon open_checkout plan_amount discounted_amount
    price_checkout user_id input fingerprint none =
        throw (app_error "Select an available paid plan." 400)
    price_checkout user_id input fingerprint (some plan) = do
      throw_if (not plan.is_active || str_eq plan.key "free")
          (app_error "Select an available paid plan." 400)
      coupon ← take_coupon input.coupon_code input.plan_key user_id
      amount ←
          read_amount
            (discounted (terms_of coupon) (plan_amount plan.prices (some fingerprint.cycle)))
      throw_if (ltb 0 amount && not g.is_configured) payments_unavailable
      open_checkout user_id input.request_key fingerprint plan amount coupon

    unfoldable pub resume_or_open :
        String → CheckoutInput → Fingerprint → Option Checkout → Action Ledger Reservation
    unfolding resume price_checkout
    resume_or_open user_id input fingerprint (some c) = resume fingerprint c
    resume_or_open user_id input fingerprint none = do
      plan ← gets (λ (s : Ledger). find (λ (p : PricedPlan). str_eq p.key input.plan_key) s.plans)
      price_checkout user_id input fingerprint plan

    unfoldable pub reserve_new : String → CheckoutInput → Fingerprint → Action Ledger Reservation
    unfolding resume_or_open
    reserve_new user_id input fingerprint = do
      latest ← gets (latest_purchase user_id)
      throw_if (not (same_option input.expected_purchase_id (payment_id_of latest))) (
          app_error_with "Your billing changed. Refresh and review the purchase before continuing."
            409 none (some "PURCHASE_CHANGED"))
      refunding ← gets (λ (s : Ledger). any (is_open_refund_of user_id) s.refunds)
      throw_if refunding (
          app_error "Wait for your pending refund to be resolved before purchasing another plan."
            409)
      found ← gets (λ (s : Ledger).
          best created_last (λ (c : Checkout). str_eq c.user_id user_id && is_open_checkout c)
            s.checkouts)
      resume_or_open user_id input fingerprint found

    unfoldable pub reserve_found :
        String → CheckoutInput → Fingerprint → Option Checkout → Action Ledger Reservation
    unfolding reuse reserve_new
    reserve_found user_id input fingerprint (some c) = reuse fingerprint c
    reserve_found user_id input fingerprint none = reserve_new user_id input fingerprint

    -- the first transaction
    unfoldable pub reserve : String → CheckoutInput → Fingerprint → Action Ledger Reservation
    unfolding reserve_found
    reserve user_id input fingerprint = do
      previous ← gets (λ (s : Ledger). find (is_attempt user_id input.request_key) s.checkouts)
      reserve_found user_id input fingerprint previous
