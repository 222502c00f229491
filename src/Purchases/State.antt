-- ===== src/Purchases/State.antt =====
-- The tables of prisma/schema.prisma that billing reads and writes. The copy of a billing profile in a
-- payment's metadata takes part in no decision and is left out, as is `gateway_signature`.
use url_shortner_system_desi.Common.{
  ℕ, String, Bool, Option, List, Dict, Action, Result, ok, err, modify, ◌>>◌, pure, erase,
  if◌then◌else◌, str_eq, update_where,
}
use url_shortner_system_desi.State.{BillingCycle, Subscription, ActiveSubscription}
use url_shortner_system_desi.Billing.Policy.{Prices, Coupon, PaymentStatus}

pub record PricedPlan : Type 0 where
  pub id : String
  pub key : String
  pub is_active : Bool
  pub prices : Prices
  pub currency : String

pub record CouponRow : Type 0 where
  pub id : String
  pub code : String
  pub terms : Coupon
  pub applicable_plans : List String
  pub max_redemptions : Option ℕ
  pub times_redeemed : ℕ
  pub valid_from : ℕ
  pub valid_until : Option ℕ
  pub is_active : Bool

pub record Redemption : Type 0 where
  pub coupon_id : String
  pub user_id : String
  pub payment_id : String

-- the statuses of a checkout's own, and those that it takes from its payment
pub data CheckoutStatus : Type 0 where
  creating unknown ready : CheckoutStatus
  of_payment : PaymentStatus → CheckoutStatus

-- `JSON.stringify` of a plan, a cycle and a code
pub record Fingerprint : Type 0 where
  pub plan_key : String
  pub cycle : BillingCycle
  pub code : String

pub record Checkout : Type 0 where
  pub id : String
  pub user_id : String
  pub request_key : String
  pub fingerprint : Fingerprint
  pub plan_id : String
  pub billing_cycle : BillingCycle
  pub amount : ℕ
  pub currency : String
  pub coupon_id : Option String
  pub status : CheckoutStatus
  pub payment_id : Option String
  pub created_at : ℕ

pub record Metadata : Type 0 where
  pub coupon_id : Option String
  pub checkout_id : Option String
  pub paid_at : Option ℕ
  pub fulfillment_status : Option String
  pub previous_subscription_id : Option String
  pub duplicate_charges : List String

pub record PaymentRow : Type 0 where
  pub id : String
  pub user_id : String
  pub subscription_id : Option String
  pub plan_id : String
  pub billing_cycle : BillingCycle
  pub amount : ℕ
  pub currency : String
  pub status : PaymentStatus
  pub gateway : String
  pub gateway_order_id : String
  pub gateway_payment_id : Option String
  pub failure_reason : Option String
  pub refunded_amount : ℕ
  pub metadata : Metadata
  pub created_at : ℕ

pub data RefundStatus : Type 0 where
  requested processing pending unknown processed failed : RefundStatus

pub record RefundRow : Type 0 where
  pub id : String
  pub payment_id : String
  pub user_id : String
  pub amount : ℕ
  pub status : RefundStatus
  pub gateway_refund_id : Option String
  pub reason : String
  pub note : String
  pub failure_reason : Option String

pub record WebhookEvent : Type 0 where
  pub id : String
  pub event_id : String
  pub event_type : String
  pub processed : Bool
  pub processed_at : Option ℕ
  pub processing_error : Option String

-- `drawn` counts the identifiers that the database has made
pub record Ledger : Type 0 where
  pub now : ℕ
  pub drawn : ℕ
  pub plans : List PricedPlan
  pub coupons : List CouponRow
  pub redemptions : List Redemption
  pub checkouts : List Checkout
  pub payments : List PaymentRow
  pub subscriptions : List Subscription
  pub refunds : List RefundRow
  pub webhooks : List WebhookEvent
  -- `isRedisReady()` with commands that do not throw, and the cached plans
  pub redis_answers : Bool
  pub plan_cache : Dict ActiveSubscription

-- `locked`: the writes of a transaction that throws are taken back
abbrev pub rolled_back {ℓ} : {A : Type ℓ} → Ledger → Result A × Ledger → Result A × Ledger
rolled_back s (ok a, t) = (ok a, t)
rolled_back s (err e, t) = (err e, s)

unfoldable pub locked {ℓ} : {A : Type ℓ} → Action Ledger A → Action Ledger A
locked m s = rolled_back s (m s)

unfoldable pub invalidate_subscription_cache : String → Action Ledger (Unit {0})
invalidate_subscription_cache user_id = modify (λ s. record s {
  plan_cache = if s.redis_answers then erase user_id s.plan_cache else s.plan_cache;
})

abbrev pub is_payment : String → PaymentRow → Bool
is_payment id p = str_eq p.id id

abbrev pub is_checkout : String → Checkout → Bool
is_checkout id c = str_eq c.id id

abbrev pub is_refund : String → RefundRow → Bool
is_refund id r = str_eq r.id id

-- `update` of a row that was read before
unfoldable pub update_payment : (PaymentRow → PaymentRow) → PaymentRow → Action Ledger PaymentRow
update_payment f p = do
  modify (λ s. record s { payments = update_where (is_payment p.id) f s.payments })
  pure (f p)

unfoldable pub update_checkouts :
    (Checkout → Bool) → (Checkout → Checkout) → Action Ledger (Unit {0})
update_checkouts p f = modify (λ s. record s { checkouts = update_where p f s.checkouts })

unfoldable pub update_refunds :
    (RefundRow → Bool) → (RefundRow → RefundRow) → Action Ledger (Unit {0})
update_refunds p f = modify (λ s. record s { refunds = update_where p f s.refunds })
