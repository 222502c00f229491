-- ===== src/Billing/Policy.antt =====
-- services/billingPolicy.js: amounts, discounts and who may have a payment refunded. Amounts are
-- minor units of a currency, which are not negative in any row.
use url_shortner_system_desi.Common.{
  ℕ, ◌+◌, ◌-◌, ◌*◌, ◌/◌, String, Bool, true, false, not, ◌||◌, Option, none, some, Result, ok, err,
  app_error, leb, ltb, ◌==◌, if◌then◌else◌, str_eq, truthy,
}
use url_shortner_system_desi.State.{BillingCycle, monthly, quarterly, yearly}

abbrev pub refund_window_ms : ℕ
refund_window_ms = 14 * 24 * 60 * 60 * 1000

pub record Prices : Type 0 where
  pub price_monthly : ℕ
  pub price_quarterly : Option ℕ
  pub price_yearly : Option ℕ

abbrev or_times : Option ℕ → ℕ → ℕ → ℕ
or_times none monthly_price n = monthly_price * n
or_times (some price) monthly_price n = price

-- `Number.MAX_SAFE_INTEGER`
abbrev pub max_safe : ℕ
max_safe = 9007199254740991

abbrev pub cycle_price : Prices → BillingCycle → ℕ
cycle_price plan monthly = plan.price_monthly
cycle_price plan quarterly = or_times plan.price_quarterly plan.price_monthly 3
cycle_price plan yearly = or_times plan.price_yearly plan.price_monthly 12

-- `none` is a cycle that is none of the three
unfoldable pub plan_amount : Prices → Option BillingCycle → Result ℕ
plan_amount plan none = err (app_error "Choose monthly, quarterly, or yearly billing." 400)
plan_amount plan (some cycle) =
    if leb (cycle_price plan cycle) max_safe
    then ok (cycle_price plan cycle)
    else err (app_error "This plan has an invalid price. Contact billing support." 409)

pub data DiscountType : Type 0 where
  percent flat : DiscountType

pub record Coupon : Type 0 where
  pub discount_type : DiscountType
  pub discount_value : ℕ

-- `Math.round(amount * value / 100)`, half a unit going up
abbrev pub discount : ℕ → DiscountType → ℕ → ℕ
discount amount percent value = (amount * value * 2 + 100) / 200
discount amount flat value = value

abbrev pub is_misconfigured : Coupon → Bool
is_misconfigured c =
    not (leb c.discount_value max_safe)
    || elim c.discount_type [ percent ↦ ltb 100 c.discount_value | flat ↦ false ]

unfoldable pub discounted_amount : ℕ → Option Coupon → Result ℕ
discounted_amount amount none = ok amount
discounted_amount amount (some c) =
    if is_misconfigured c
    then err (app_error "This discount is not configured correctly." 409)
    else ok (amount - discount amount c.discount_type c.discount_value)

pub data PaymentStatus : Type 0 where
  created authorized captured failed refunded partially_refunded : PaymentStatus

abbrev pub is_refundable : PaymentStatus → Bool
is_refundable captured = true
is_refundable partially_refunded = true
is_refundable _ = false

-- `paid_at` is `metadata.paidAt`, or the creation of the row
pub record Payment : Type 0 where
  pub amount : ℕ
  pub refunded_amount : ℕ
  pub status : PaymentStatus
  pub gateway : String
  pub gateway_payment_id : Option String
  pub paid_at : ℕ

pub record Eligibility : Type 0 where
  pub eligible : Bool
  pub reason : String
  pub amount : ℕ
  pub deadline : ℕ

-- the reason of a refusal; `refund` says whether the refund that exists is processed
unfoldable pub refusal_reason : Payment → Option Bool → ℕ → Option String
refusal_reason p (some true) now = some "Refund already processed."
refusal_reason p (some false) now = some "A refund request already exists. Check its status."
refusal_reason p none now =
    if not (is_refundable p.status)
    then some "Only captured payments can be refunded."
    else if p.amount - p.refunded_amount == 0
    then some "There is no refundable balance."
    else if not (str_eq p.gateway "razorpay") || not (truthy p.gateway_payment_id)
    then some "No refundable gateway charge. Contact support for a billing review."
    else if ltb now p.paid_at || leb (p.paid_at + refund_window_ms) now
    then some "The 14-day self-service refund window has ended."
    else none

abbrev pub or_empty : Option String → String
or_empty none = ""
or_empty (some s) = s

unfoldable pub refund_eligibility : Payment → Option Bool → ℕ → Eligibility
unfolding refusal_reason
refund_eligibility p refund now = record {
  eligible = elim (refusal_reason p refund now) [ none ↦ true | some s ↦ false ];
  reason = or_empty (refusal_reason p refund now);
  amount = p.amount - p.refunded_amount;
  deadline = p.paid_at + refund_window_ms;
}
