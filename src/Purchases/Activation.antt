-- ===== src/Purchases/Activation.antt =====
-- `activate`: what a captured payment grants. `to_utc` and `from_utc` are `Date`, `new_id` is the
-- identifier that the database makes at its n-th row.
use url_shortner_system_desi.Common.{
  ℕ, ◌+◌, String, Bool, true, false, ◌&&◌, Option, none, some, [], ◌∷◌, ◌++◌, Action, best, ltb,
  if◌then◌else◌, str_eq, update_where, pure, gets, throw, ◌>>=◌, ◌>>◌, Result, ok, err,
}
use url_shortner_system_desi.State.{
  Subscription, SubscriptionStatus, is_active_status, sql_eq, active, past_due, trialing, canceled,
}
use url_shortner_system_desi.Billing.Period.{UtcDate, period_end}
use url_shortner_system_desi.Purchases.State.{Ledger, PaymentRow, update_payment}
use url_shortner_system_desi.Purchases.Coupons.{redeem}

-- status: { in: ['ACTIVE', 'PAST_DUE', 'TRIALING'] }
abbrev pub is_running : SubscriptionStatus → Bool
is_running active = true
is_running past_due = true
is_running trialing = true
is_running _ = false

abbrev pub is_active_of : String → Subscription → Bool
is_active_of user_id s = str_eq s.user_id user_id && is_active_status s.status

abbrev pub is_running_of : String → Subscription → Bool
is_running_of user_id s = str_eq s.user_id user_id && is_running s.status

abbrev pub canceled_at_now : ℕ → Subscription → Subscription
canceled_at_now now s = record s { status = canceled; canceled_at = some now }

abbrev started_later : Subscription → Subscription → Bool
started_later s t = ltb t.started_at s.started_at

abbrev pub created_later : PaymentRow → PaymentRow → Bool
created_later p q = ltb q.created_at p.created_at

-- the active subscription that started last, and the last payment of it
abbrev pub current_subscription : String → Ledger → Option Subscription
current_subscription user_id s = best started_later (is_active_of user_id) s.subscriptions

abbrev pub last_payment : Option Subscription → Ledger → Option PaymentRow
last_payment none s = none
last_payment (some sub) s =
    best created_later (λ (p : PaymentRow). sql_eq p.subscription_id (some sub.id)) s.payments

abbrev pub is_newer : PaymentRow → Option PaymentRow → Bool
is_newer p none = false
is_newer p (some q) = ltb p.created_at q.created_at

-- `samePlan ? active.current_period_end : now`
abbrev period_start : ℕ → PaymentRow → Option Subscription → ℕ
period_start now p none = now
period_start now p (some sub) = elim sub.current_period_end [
  | none ↦ now
  | some end ↦ if str_eq sub.plan_id p.plan_id && ltb now end then end else now
]

abbrev pub id_of : Option Subscription → Option String
id_of none = none
id_of (some sub) = some sub.id

abbrev pub mark_for_review : PaymentRow → PaymentRow
mark_for_review p = record p {
  metadata = record p.metadata { fulfillment_status = some "REVIEW_REQUIRED" };
}

abbrev pub granted : String → Option Subscription → PaymentRow → PaymentRow
granted sub_id previous p = record p {
  subscription_id = some sub_id;
  metadata = record p.metadata {
    fulfillment_status = some "ACTIVE";
    previous_subscription_id = id_of previous;
  };
}

abbrev pub bought : ℕ → String → PaymentRow → ℕ → Subscription
bought now id p end = record {
  id = id;
  user_id = p.user_id;
  plan_id = p.plan_id;
  billing_cycle = p.billing_cycle;
  status = active;
  started_at = now;
  current_period_end = some end;
  cancel_at_period_end = false;
  canceled_at = none;
  external_subscription_id = some p.gateway_order_id;
}

module _ (to_utc : ℕ → UtcDate) (from_utc : UtcDate → ℕ) (new_id : ℕ → String) where
  abbrev end_ms : Result UtcDate → Action Ledger ℕ
  end_ms (err e) = throw e
  end_ms (ok d) = pure (from_utc d)

  -- the running subscriptions of the user end, and the new one starts
  unfoldable pub replace_subscription : PaymentRow → ℕ → Action Ledger String
  replace_subscription p end s = (
    ok (new_id s.drawn),
    record s {
      drawn = s.drawn + 1;
      subscriptions =
          update_where (is_running_of p.user_id) (canceled_at_now s.now) s.subscriptions
          ++ bought s.now (new_id s.drawn) p end ∷ [];
    },
  )

  unfoldable pub fulfil : PaymentRow → Option Subscription → Action Ledger PaymentRow
  unfolding period_end replace_subscription redeem update_payment
  fulfil p previous = do
    now ← gets (λ (s : Ledger). s.now)
    end ← end_ms (period_end (to_utc (period_start now p previous)) (some p.billing_cycle))
    sub_id ← replace_subscription p end
    redeem p p.metadata.coupon_id
    update_payment (granted sub_id previous) p

  -- A delayed old capture must not replace a newer purchase.
  unfoldable pub activate_new : PaymentRow → Action Ledger PaymentRow
  unfolding fulfil update_payment
  activate_new p = do
    previous ← gets (current_subscription p.user_id)
    last ← gets (last_payment previous)
    if is_newer p last then update_payment mark_for_review p else fulfil p previous

  unfoldable pub activate : PaymentRow → Action Ledger PaymentRow
  unfolding activate_new
  activate p = elim p.subscription_id [ none ↦ activate_new p | some sub_id ↦ pure p ]
