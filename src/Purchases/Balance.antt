-- ===== src/Purchases/Balance.antt =====
-- `reconcileRefundBalance`: what the refunds of a payment come to.
use url_shortner_system_desi.Common.{
  ℕ, ◌+◌, max, String, Bool, true, false, not, ◌&&◌, ◌||◌, Option, none, some, List, [], ◌∷◌,
  Action, find, any, ltb, ◌==◌, if◌then◌else◌, str_eq, update_where, pure, gets, modify, throw_if,
  ◌>>=◌, ◌>>◌, app_error,
}
use url_shortner_system_desi.State.{Subscription, is_active_status, active, sql_eq}
use url_shortner_system_desi.Billing.Policy.{refunded, partially_refunded, max_safe}
use url_shortner_system_desi.Purchases.State.{
  Ledger, PaymentRow, locked, invalidate_subscription_cache, update_payment, is_payment,
}
use url_shortner_system_desi.Purchases.Gateway.{Gateway, RefundEntity, fetch_processed_refunds}
use url_shortner_system_desi.Purchases.Activation.{canceled_at_now}
use url_shortner_system_desi.Purchases.Checkout.{is_captured}
use url_shortner_system_desi.Purchases.Settlement.{read_result}

abbrev pub total_of : List RefundEntity → ℕ
total_of [] = 0
total_of (r ∷ rs) = r.amount + total_of rs

abbrev pub is_sub_of : String → String → Subscription → Bool
is_sub_of id user_id s = str_eq s.id id && str_eq s.user_id user_id

-- the subscription that a refunded one replaced, where it still runs and a captured payment paid it
abbrev is_paid_sub : List PaymentRow → Subscription → Bool
is_paid_sub payments sub =
    any (λ (p : PaymentRow). sql_eq p.subscription_id (some sub.id) && is_captured p.status)
      payments

abbrev is_running_on : ℕ → Subscription → Bool
is_running_on now sub = elim sub.current_period_end [ none ↦ false | some end ↦ ltb now end ]

abbrev pub can_return : ℕ → List PaymentRow → String → String → Subscription → Bool
can_return now payments id user_id sub =
    is_sub_of id user_id sub && (is_running_on now sub && is_paid_sub payments sub)

abbrev pub ended : ℕ → Subscription → Subscription
ended now sub = record (canceled_at_now now sub) { current_period_end = some now }

abbrev pub revived : Subscription → Subscription
revived sub = record sub { status = active; canceled_at = none }

abbrev set_subscriptions : (List Subscription → List Subscription) → Action Ledger (Unit {0})
set_subscriptions f = modify (λ s. record s { subscriptions = f s.subscriptions })

unfoldable pub revive : Option Subscription → Action Ledger (Unit {0})
revive none = pure tt
revive (some sub) =
    set_subscriptions (update_where (λ (t : Subscription). str_eq t.id sub.id) revived)

unfoldable pub bring_back : PaymentRow → Option String → Action Ledger (Unit {0})
unfolding revive
bring_back p none = pure tt
bring_back p (some id) = do
  previous ← gets (λ (s : Ledger). find (can_return s.now s.payments id p.user_id) s.subscriptions)
  revive previous

-- Only the subscription that the payment bought ends.
unfoldable pub withdraw : PaymentRow → String → Action Ledger (Unit {0})
unfolding bring_back
withdraw p sub_id = do
  linked ← gets (λ (s : Ledger).
      any (λ (t : Subscription). is_sub_of sub_id p.user_id t && is_active_status t.status)
        s.subscriptions)
  now ← gets (λ (s : Ledger). s.now)
  set_subscriptions (update_where (is_sub_of sub_id p.user_id) (ended now))
  if linked then bring_back p p.metadata.previous_subscription_id else pure tt

abbrev pub refunded_by : ℕ → ℕ → PaymentRow → PaymentRow
refunded_by full amount p = record p {
  refunded_amount = amount;
  status = if amount == full then refunded else partially_refunded;
}

unfoldable pub withdraw_paid : PaymentRow → Option String → Action Ledger (Unit {0})
unfolding withdraw
withdraw_paid p none = pure tt
withdraw_paid p (some sub_id) = withdraw p sub_id

-- A delayed notification never lowers the refunded amount. `p` is the row as it was first read.
unfoldable pub apply_total : PaymentRow → ℕ → PaymentRow → Action Ledger (Unit {0})
unfolding update_payment withdraw_paid
apply_total p total fresh =
    let amount = max total fresh.refunded_amount in
    if amount == 0 then pure tt else (do
      _ ← update_payment (refunded_by p.amount amount) fresh
      if amount == p.amount then withdraw_paid p p.subscription_id else pure tt)

unfoldable pub apply_refunds : PaymentRow → ℕ → Action Ledger (Unit {0})
unfolding apply_total
apply_refunds p total = do
  fresh ← gets (λ (s : Ledger). find (is_payment p.id) s.payments)
  elim fresh [ none ↦ pure tt | some q ↦ apply_total p total q ]

abbrev is_listed : Option String → List RefundEntity → Bool
is_listed none refunds = true
is_listed (some id) refunds = any (λ (r : RefundEntity). str_eq r.id id) refunds

abbrev pub or_empty_id : Option String → String
or_empty_id none = ""
or_empty_id (some id) = id

module _ (g : Gateway) where
  unfoldable pub reconcile_refund_balance : PaymentRow → Option String → Action Ledger (Unit {0})
  unfolding fetch_processed_refunds apply_refunds locked invalidate_subscription_cache
  reconcile_refund_balance p expected = do
    refunds ← read_result (fetch_processed_refunds g (or_empty_id p.gateway_payment_id))
    throw_if (not (is_listed expected refunds)) (
        app_error
          "The processed refund is not yet reflected in provider totals. Refresh its status shortly."
          409)
    let total = total_of refunds
    throw_if (ltb max_safe total || ltb p.amount total)
        (app_error "Refund totals need a billing review." 409)
    locked (apply_refunds p total)
    invalidate_subscription_cache p.user_id
