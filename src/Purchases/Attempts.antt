-- ===== src/Purchases/Attempts.antt =====
-- The attempts of `createBillingOrder` and the payment rows that come of them. A purchase key is the
-- text `requestKey`.
use url_shortner_system_desi.Common.{
  ℕ, ◌+◌, String, Bool, true, false, ◌&&◌, ◌||◌, Option, none, some, [], ◌∷◌, ◌++◌, Action, find,
  leb, ◌==◌, if◌then◌else◌, str_eq, pure, gets, ◌>>=◌, ◌>>◌, ok, Error, app_error, count_chars,
  all_chars,
}
use url_shortner_system_desi.State.{BillingCycle, monthly, quarterly, yearly}
use url_shortner_system_desi.Billing.Policy.{PaymentStatus, created, authorized, captured, failed}
use url_shortner_system_desi.Purchases.State.{
  Ledger, Checkout, CheckoutStatus, creating, unknown, ready, of_payment, Fingerprint, PaymentRow,
  Metadata, RefundRow, RefundStatus, requested, processing, pending, update_checkouts, is_checkout,
}

pub record CheckoutInput : Type 0 where
  pub plan_key : String
  -- `none` is a cycle that is none of the three
  pub billing_cycle : Option BillingCycle
  pub coupon_code : String
  pub request_key : String
  pub expected_purchase_id : Option String

abbrev is_key_char : ℕ → Bool
is_key_char c =
    leb b'a' c && leb c b'z'
    || leb b'A' c && leb c b'Z'
    || leb b'0' c && leb c b'9'
    || c == b'_'
    || c == b'-'

-- /^[a-zA-Z0-9_-]{16,100}$/
abbrev pub is_request_key : String → Bool
is_request_key key =
    all_chars is_key_char key && leb 16 (count_chars key) && leb (count_chars key) 100

abbrev pub bad_input : Error
bad_input = app_error "A valid plan, billing cycle, and checkout request key are required." 400

abbrev pub same_cycle : BillingCycle → BillingCycle → Bool
same_cycle monthly monthly = true
same_cycle quarterly quarterly = true
same_cycle yearly yearly = true
same_cycle _ _ = false

abbrev pub same_fingerprint : Fingerprint → Fingerprint → Bool
same_fingerprint f g =
    str_eq f.plan_key g.plan_key && same_cycle f.cycle g.cycle && str_eq f.code g.code

abbrev pub is_failed : CheckoutStatus → Bool
is_failed (of_payment failed) = true
is_failed _ = false

-- 'CREATING', 'UNKNOWN', 'AUTHORIZED', 'READY', 'CREATED'
abbrev pub is_pending_status : CheckoutStatus → Bool
is_pending_status creating = true
is_pending_status unknown = true
is_pending_status ready = true
is_pending_status (of_payment authorized) = true
is_pending_status (of_payment created) = true
is_pending_status _ = false

abbrev pub has_payment : Checkout → Bool
has_payment c = elim c.payment_id [ none ↦ false | some id ↦ true ]

abbrev pub is_open_checkout : Checkout → Bool
is_open_checkout c = is_pending_status c.status || is_failed c.status && has_payment c

abbrev pub is_attempt : String → String → Checkout → Bool
is_attempt user_id key c = str_eq c.user_id user_id && str_eq c.request_key key

abbrev is_open_refund_status : RefundStatus → Bool
is_open_refund_status requested = true
is_open_refund_status processing = true
is_open_refund_status pending = true
is_open_refund_status RefundStatus.unknown = true
is_open_refund_status _ = false

abbrev pub is_open_refund_of : String → RefundRow → Bool
is_open_refund_of user_id r = str_eq r.user_id user_id && is_open_refund_status r.status

abbrev pub is_purchase_of : String → PaymentRow → Bool
is_purchase_of user_id p =
    str_eq p.user_id user_id && elim p.subscription_id [ none ↦ false | some id ↦ true ]

abbrev pub new_metadata : Checkout → Metadata
new_metadata c = record {
  coupon_id = c.coupon_id;
  checkout_id = some c.id;
  paid_at = none;
  fulfillment_status = none;
  previous_subscription_id = none;
  duplicate_charges = [];
}

-- the row that an `upsert` creates for an order; what costs nothing is paid at once
abbrev pub payment_of : Checkout → String → ℕ → String → PaymentRow
payment_of c order_id now id = record {
  id = id;
  user_id = c.user_id;
  subscription_id = none;
  plan_id = c.plan_id;
  billing_cycle = c.billing_cycle;
  amount = c.amount;
  currency = c.currency;
  status = if c.amount == 0 then captured else created;
  gateway = if c.amount == 0 then "coupon_bypass" else "razorpay";
  gateway_order_id = order_id;
  gateway_payment_id = none;
  failure_reason = none;
  refunded_amount = 0;
  metadata = new_metadata c;
  created_at = now;
}

abbrev pub checkout_status : PaymentStatus → CheckoutStatus
checkout_status created = ready
checkout_status status = of_payment status

abbrev pub is_order_of : String → PaymentRow → Bool
is_order_of order_id p = str_eq p.gateway_order_id order_id

abbrev pub paid_by : PaymentRow → Checkout → Checkout
paid_by p c = record c { status = checkout_status p.status; payment_id = some p.id }

module _ (new_id : ℕ → String) where
  -- prisma.payment.upsert({ where: { gateway_order_id }, update: {}, create })
  unfoldable pub upsert_payment :
      (ℕ → String → PaymentRow) → Option PaymentRow → Action Ledger PaymentRow
  upsert_payment make (some p) s = (ok p, s)
  upsert_payment make none s =
      let p = make s.now (new_id s.drawn) in
      (ok p, record s { drawn = s.drawn + 1; payments = s.payments ++ p ∷ [] })

  -- the payment of an order, and the checkout that it belongs to
  unfoldable pub save_payment :
      (ℕ → String → PaymentRow) → Checkout → String → Action Ledger PaymentRow
  unfolding upsert_payment update_checkouts
  save_payment make c order_id = do
    old ← gets (λ (s : Ledger). find (is_order_of order_id) s.payments)
    p ← upsert_payment make old
    update_checkouts (is_checkout c.id) (paid_by p)
    pure p
