-- ===== src/Purchases/Samples.antt =====
-- A concrete ledger and a concrete provider.
use url_shortner_system_desi.Common.{
  ℕ, zero, suc, ◌+◌, ◌*◌, String, true, false, none, some, [], ◌∷◌, ◌≡◌, refl, ap, count_chars,
}
use url_shortner_system_desi.State.{Subscription, active, monthly}
use url_shortner_system_desi.Billing.Period.{UtcDate}
use url_shortner_system_desi.Billing.Policy.{PaymentStatus}
use url_shortner_system_desi.Purchases.State.{Ledger, PaymentRow, Checkout, Metadata, ready}
use url_shortner_system_desi.Purchases.Gateway.{Gateway, Entity}

-- the n-th identifier is a text of n letters
unfoldable pub letters : ℕ → String
letters zero = ""
letters (suc n) = Prim.Native.String.◌∷◌ "r" (letters n)

pub count_chars-letters : (n : ℕ) → count_chars (letters n) ≡ n
unfolding letters
count_chars-letters zero = refl
count_chars-letters (suc n) = ap suc (count_chars-letters n)

-- a calendar of thirty-day months, of which only the first day is used
abbrev pub to_utc : ℕ → UtcDate
to_utc n = record { year = 2026; month = 0; day = 1; ms = n }

abbrev pub from_utc : UtcDate → ℕ
from_utc d = d.ms + 30 * d.month

abbrev pub paid : Entity
paid = record {
  id = "pay_1";
  order_id = "order_1";
  amount = 900;
  currency = "INR";
  status = "captured";
  created_at = some 1;
}

-- a provider with one captured payment and no orders of its own
abbrev pub provider : Gateway
provider = record {
  is_configured = true;
  create_order = λ c. none;
  order = λ id. none;
  orders_by_receipt = λ id. some (record { status = 200; body = some (some []) });
  payment = λ id. some (record { status = 200; body = some paid });
  order_payments = λ id. none;
  create_refund = λ id amount key. none;
  refund = λ id. none;
  refund_page = λ id skip. none;
}

abbrev pub old_plan : Subscription
old_plan = record {
  id = "free1";
  user_id = "ann";
  plan_id = "free";
  billing_cycle = monthly;
  status = active;
  started_at = 10;
  current_period_end = none;
  cancel_at_period_end = false;
  canceled_at = none;
  external_subscription_id = none;
}

abbrev pub metadata : Metadata
metadata = record {
  coupon_id = none;
  checkout_id = some "c1";
  paid_at = none;
  fulfillment_status = none;
  previous_subscription_id = none;
  duplicate_charges = [];
}

abbrev pub ordered : PaymentRow
ordered = record {
  id = "p1";
  user_id = "ann";
  subscription_id = none;
  plan_id = "pro";
  billing_cycle = monthly;
  amount = 900;
  currency = "INR";
  status = PaymentStatus.created;
  gateway = "razorpay";
  gateway_order_id = "order_1";
  gateway_payment_id = none;
  failure_reason = none;
  refunded_amount = 0;
  metadata = metadata;
  created_at = 500;
}

abbrev pub attempt : Checkout
attempt = record {
  id = "c1";
  user_id = "ann";
  request_key = "key-0123456789abcdef";
  fingerprint = record { plan_key = "pro"; cycle = monthly; code = "" };
  plan_id = "pro";
  billing_cycle = monthly;
  amount = 900;
  currency = "INR";
  coupon_id = none;
  status = ready;
  payment_id = some "p1";
  created_at = 400;
}

abbrev pub ledger : Ledger
ledger = record {
  now = 900;
  drawn = 7;
  plans = [];
  coupons = [];
  redemptions = [];
  checkouts = attempt ∷ [];
  payments = ordered ∷ [];
  subscriptions = old_plan ∷ [];
  refunds = [];
  webhooks = [];
  redis_answers = true;
  plan_cache = [];
}

-- sixty-four hexadecimal digits
abbrev pub signature : String
signature = "0123456789abcdef0123456789abcdef0123456789abcdef0123456789abcdef"
