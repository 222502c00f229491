-- ===== src/Purchases/KeptOrders.antt =====
-- What checkouts and settlements do to the active subscriptions.
use url_shortner_system_desi.Common.{
  ℕ, String, Bool, Option, none, some, ◌≡◌, refl, arith, Result, ok, err, Keeps, Keeps-pure,
  Keeps-throw, pure,
}
use url_shortner_system_desi.State.{BillingCycle}
use url_shortner_system_desi.Billing.Period.{UtcDate}
use url_shortner_system_desi.Purchases.Gateway.{Gateway, Order, Entity}
use url_shortner_system_desi.Purchases.Kept.{
  Keeps-found, Keeps-case, table_rules, activate-OneActive, save_payment-OneActive,
}
use url_shortner_system_desi.Purchases.OneActive.{OneActive-same, OneActive}
use url_shortner_system_desi.Purchases.Settlement.{
  verify_billing_payment, verify_found, settle_fresh, recover_unknown, settle_original,
  recover_payment, settle_payment, settle_row, adopt_order, settle_open, follow_payment,
}
use url_shortner_system_desi.Purchases.State.{
  PricedPlan, Fingerprint, CouponRow, Checkout, PaymentRow,
}
use url_shortner_system_desi.Purchases.Reserve.{
  reuse, resume, reserve_new, resume_or_open, reserve_found, reserve, check_reserved,
  price_checkout, read_amount, open_checkout, take_coupon,
}
use url_shortner_system_desi.Purchases.Checkout.{
  answer_of, create_billing_order, create_with, place_order, checkout_response, record_order,
  resolve_order,
}
use url_shortner_system_desi.Purchases.Attempts.{CheckoutInput}
use url_shortner_system_desi.Purchases.Coupons.{validate_billing_coupon, check_coupon}

module _ (drawn_at : String → ℕ) (new_id : ℕ → String) (fresh : (n : ℕ) → drawn_at (new_id n) ≡ n)
    (to_utc : ℕ → UtcDate) (from_utc : UtcDate → ℕ) where
  pub ruleset row_rules = (table_rules, activate-OneActive, save_payment-OneActive)

  -- Settlements: the provider is another one at each request.
  module _ (g : Gateway) where
    adopt_order-OneActive :
        (order : Order) (o : Option Checkout)
        → Keeps (OneActive drawn_at) (adopt_order to_utc from_utc new_id g order o)
    unfolding adopt_order
    adopt_order-OneActive order none = search row_rules
    adopt_order-OneActive order (some c) = search row_rules depth 12

    recover_unknown-OneActive :
        (id : String) → Keeps (OneActive drawn_at) (recover_unknown to_utc from_utc new_id g id)
    unfolding recover_unknown
    recover_unknown-OneActive id = search (row_rules, adopt_order-OneActive) depth 14

    pub recover_payment-OneActive :
        (id : String) → Keeps (OneActive drawn_at) (recover_payment to_utc from_utc new_id g id)
    unfolding recover_payment
    recover_payment-OneActive id =
        Keeps-found _ (recover_unknown to_utc from_utc new_id g id) pure
          (recover_unknown-OneActive id) (λ p. Keeps-pure)

    settle_open-OneActive :
        (e : Entity) (p : PaymentRow)
        → Keeps (OneActive drawn_at) (settle_open to_utc from_utc new_id g e p)
    unfolding settle_open
    settle_open-OneActive e p = search row_rules depth 14

    follow_payment-OneActive :
        (p : PaymentRow) (o : Option String)
        → Keeps (OneActive drawn_at) (follow_payment to_utc from_utc new_id g p o)
    unfolding follow_payment
    follow_payment-OneActive p none = search row_rules
    follow_payment-OneActive p (some id) = search row_rules

    settle_row-OneActive :
        (e : Entity) (p : PaymentRow)
        → Keeps (OneActive drawn_at) (settle_row to_utc from_utc new_id g e p)
    unfolding settle_row
    settle_row-OneActive e p =
        search (row_rules, settle_open-OneActive, follow_payment-OneActive) depth 14

    settle_fresh-OneActive :
        (e : Entity) (p : PaymentRow)
        → Keeps (OneActive drawn_at) (settle_fresh to_utc from_utc new_id g e p)
    unfolding settle_fresh
    settle_fresh-OneActive e p =
        Keeps-found _ (pure p) (settle_row to_utc from_utc new_id g e) Keeps-pure
          (settle_row-OneActive e)

    settle_original-OneActive :
        (e : Entity) (p : PaymentRow)
        → Keeps (OneActive drawn_at) (settle_original to_utc from_utc new_id g e p)
    unfolding settle_original
    settle_original-OneActive e p = search (row_rules, settle_fresh-OneActive) depth 14

    pub settle_payment-OneActive :
        (e : Entity) → Keeps (OneActive drawn_at) (settle_payment to_utc from_utc new_id g e)
    unfolding settle_payment
    settle_payment-OneActive e =
        search (row_rules, recover_payment-OneActive, settle_original-OneActive) depth 12

  module _ (hmac : String → String) (g : Gateway) where
    verify_found-OneActive :
        (user_id payment_id signature : String) (o : Option PaymentRow)
        → Keeps
            (OneActive drawn_at)
            (verify_found to_utc from_utc new_id hmac g user_id payment_id signature o)
    unfolding verify_found
    verify_found-OneActive user_id payment_id signature none = search row_rules
    verify_found-OneActive user_id payment_id signature (some p) =
        search (row_rules, settle_payment-OneActive) depth 16

    pub verify-OneActive :
        (user_id order_id payment_id signature : String)
        → Keeps (OneActive drawn_at) (
            verify_billing_payment to_utc from_utc new_id hmac g user_id order_id payment_id
              signature)
    unfolding verify_billing_payment
    verify-OneActive user_id order_id payment_id signature =
        search (row_rules, verify_found-OneActive) depth 12

  -- Checkouts: only a free one starts a subscription.
  module _ (upper : String → String) (id_before : String → String → Bool) (g : Gateway) where
    check_coupon-OneActive :
        (plan_key user_id : String) (o : Option CouponRow)
        → Keeps (OneActive drawn_at) (check_coupon plan_key user_id o)
    unfolding check_coupon
    check_coupon-OneActive plan_key user_id none = search row_rules
    check_coupon-OneActive plan_key user_id (some c) = search row_rules depth 16

    validate-OneActive :
        (code plan_key user_id : String)
        → Keeps (OneActive drawn_at) (validate_billing_coupon upper code plan_key user_id)
    unfolding validate_billing_coupon
    validate-OneActive code plan_key user_id = search (row_rules, check_coupon-OneActive) depth 12

    check_reserved-OneActive : (c : CouponRow) → Keeps (OneActive drawn_at) (check_reserved c)
    unfolding check_reserved
    check_reserved-OneActive c = Keeps-case c.max_redemptions Keeps-pure (λ n. search row_rules)

    take_coupon-OneActive :
        (code plan_key user_id : String)
        → Keeps (OneActive drawn_at) (take_coupon new_id upper id_before g code plan_key user_id)
    unfolding take_coupon
    take_coupon-OneActive code plan_key user_id =
        search (row_rules, validate-OneActive, check_reserved-OneActive) depth 14

    open_checkout-OneActive :
        (user_id key : String) (f : Fingerprint) (plan : PricedPlan) (n : ℕ) (o : Option CouponRow)
        → Keeps (OneActive drawn_at) (open_checkout new_id user_id key f plan n o)
    unfolding open_checkout
    open_checkout-OneActive user_id key f plan n o = record {
      at = λ w k. OneActive-same drawn_at w _ refl (omega arith) k;
    }

    read_amount-OneActive : (r : Result ℕ) → Keeps (OneActive drawn_at) (read_amount r)
    read_amount-OneActive (ok n) = search row_rules
    read_amount-OneActive (err e) = search row_rules

    price_checkout-OneActive :
        (user_id : String) (input : CheckoutInput) (f : Fingerprint) (o : Option PricedPlan)
        → Keeps (OneActive drawn_at) (price_checkout new_id upper id_before g user_id input f o)
    unfolding price_checkout
    price_checkout-OneActive user_id input f none = search row_rules
    price_checkout-OneActive user_id input f (some plan) =
        search (row_rules, take_coupon-OneActive, open_checkout-OneActive, read_amount-OneActive)
          depth 16

    resume_or_open-OneActive :
        (user_id : String) (input : CheckoutInput) (f : Fingerprint) (o : Option Checkout)
        → Keeps (OneActive drawn_at) (resume_or_open new_id upper id_before g user_id input f o)
    unfolding resume_or_open resume
    resume_or_open-OneActive user_id input f none =
        search (row_rules, price_checkout-OneActive) depth 10
    resume_or_open-OneActive user_id input f (some c) = search row_rules depth 10

    reserve_found-OneActive :
        (user_id : String) (input : CheckoutInput) (f : Fingerprint) (o : Option Checkout)
        → Keeps (OneActive drawn_at) (reserve_found new_id upper id_before g user_id input f o)
    unfolding reserve_found reserve_new reuse
    reserve_found-OneActive user_id input f none =
        search (row_rules, resume_or_open-OneActive) depth 16
    reserve_found-OneActive user_id input f (some c) = search row_rules depth 12

    reserve-OneActive :
        (user_id : String) (input : CheckoutInput) (f : Fingerprint)
        → Keeps (OneActive drawn_at) (reserve new_id upper id_before g user_id input f)
    unfolding reserve
    reserve-OneActive user_id input f = search (row_rules, reserve_found-OneActive) depth 10

    checkout_response-OneActive : (c : Checkout) → Keeps (OneActive drawn_at) (checkout_response c)
    unfolding checkout_response
    checkout_response-OneActive c =
        Keeps-found _ _ (λ p. pure (answer_of c p)) Keeps-throw (λ p. Keeps-pure)

    resolve_order-OneActive :
        (c : Checkout) (r : Result Order) → Keeps (OneActive drawn_at) (resolve_order c r)
    unfolding resolve_order
    resolve_order-OneActive c (ok order) = search row_rules
    resolve_order-OneActive c (err e) = search row_rules depth 10

    record_order-OneActive :
        (c : Checkout) (id : String)
        → Keeps (OneActive drawn_at) (record_order to_utc from_utc new_id upper id_before g c id)
    unfolding record_order
    record_order-OneActive c id = search row_rules depth 14

    place_order-OneActive :
        (user_id : String) (c : Checkout)
        → Keeps
            (OneActive drawn_at)
            (place_order to_utc from_utc new_id upper id_before g user_id c)
    unfolding place_order
    place_order-OneActive user_id c =
        search
          (row_rules, resolve_order-OneActive, record_order-OneActive, checkout_response-OneActive)
          depth 14

    create_with-OneActive :
        (user_id : String) (input : CheckoutInput) (o : Option BillingCycle)
        → Keeps
            (OneActive drawn_at)
            (create_with to_utc from_utc new_id upper id_before g user_id input o)
    unfolding create_with
    create_with-OneActive user_id input none = search row_rules
    create_with-OneActive user_id input (some cycle) =
        search (row_rules, reserve-OneActive, place_order-OneActive, checkout_response-OneActive)
          depth 14

    pub create_order-OneActive :
        (user_id : String) (input : CheckoutInput)
        → Keeps
            (OneActive drawn_at)
            (create_billing_order to_utc from_utc new_id upper id_before g user_id input)
    unfolding create_billing_order
    create_order-OneActive user_id input = create_with-OneActive user_id input input.billing_cycle
