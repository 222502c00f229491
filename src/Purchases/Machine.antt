-- ===== src/Purchases/Machine.antt =====
-- The requests that billing takes, in any order and with any replies of the provider.
use url_shortner_system_desi.Common.{
  get_elem?-All, get_elem?, ℕ, String, Bool, true, false, Option, none, some, List, [], ◌∷◌, Action,
  ◌≡◌, refl, sym, ap, ◌∙◌, arith, Result, ok, err, Keeps, keeps_rules,
}
use url_shortner_system_desi.State.{Subscription, is_active_status}
use url_shortner_system_desi.Billing.Period.{UtcDate}
use url_shortner_system_desi.Purchases.Gateway.{Gateway}
use url_shortner_system_desi.Purchases.Kept.{table_rules}
use url_shortner_system_desi.Purchases.KeptRefunds.{
  sync_refund-OneActive, save_refund_result-OneActive, reconcile-OneActive, refund_rules,
}
use url_shortner_system_desi.Purchases.State.{RefundRow, WebhookEvent, PaymentRow, Ledger}
use url_shortner_system_desi.Purchases.Webhooks.{
  with_outcome, failed_with, handled, Hook, RefundHint, process_event, reconcile_hinted,
  handle_webhook, refund_webhook_of, refund_webhook_for, update_webhook, process_billing_webhook,
  refund_webhook, payment_webhook, upsert_event,
}
use url_shortner_system_desi.Purchases.Attempts.{CheckoutInput}
use url_shortner_system_desi.Purchases.Checkout.{create_billing_order}
use url_shortner_system_desi.Purchases.OneActive.{Fits, OneActive-same, OneActive}
use url_shortner_system_desi.Purchases.Settlement.{verify_billing_payment}
use url_shortner_system_desi.Purchases.Requests.{
  request_billing_refund, request_administrative_refund, RefundInput,
}
use url_shortner_system_desi.Purchases.KeptOrders.{
  verify-OneActive, settle_payment-OneActive, create_order-OneActive,
}
use url_shortner_system_desi.Purchases.Sync.{sync_billing_checkout, sync_billing_payment}
use url_shortner_system_desi.Purchases.Refunds.{sync_billing_refund}
use url_shortner_system_desi.Purchases.KeptSync.{
  administrative-OneActive, request_refund-OneActive, sync_checkout-OneActive,
  sync_payment-OneActive,
}

module _ (drawn_at : String → ℕ) (new_id : ℕ → String) (fresh : (n : ℕ) → drawn_at (new_id n) ≡ n)
    (to_utc : ℕ → UtcDate) (from_utc : UtcDate → ℕ) (g : Gateway) where
  upsert_event-OneActive :
      (h : Hook) (o : Option WebhookEvent)
      → Keeps (OneActive drawn_at) (upsert_event to_utc from_utc new_id g h o)
  unfolding upsert_event
  upsert_event-OneActive h none = record {
    at = λ w k. OneActive-same drawn_at w _ refl (omega arith) k;
  }
  upsert_event-OneActive h (some w) = record { at = λ w k. k }

  outcome_as :
      (id : String) (o : Result (Unit {0}) × Ledger)
      → OneActive drawn_at o.1
      → OneActive drawn_at
          (elim o.0 as (λ _. Result (Unit {0}) × Ledger) [
            | ok a ↦ (ok tt, update_webhook id (handled o.1.now) o.1)
            | err e ↦ (err e, update_webhook id (failed_with e.message) o.1)
          ]).1
  unfolding update_webhook
  outcome_as id (ok a, w) k = OneActive-same drawn_at w _ refl (omega arith) k
  outcome_as id (err e, w) k = OneActive-same drawn_at w _ refl (omega arith) k

  with_outcome-OneActive :
      (id : String) (m : Action Ledger (Unit {0}))
      → Keeps (OneActive drawn_at) m
      → Keeps (OneActive drawn_at) (with_outcome id m)
  unfolding with_outcome
  with_outcome-OneActive id m k = record { at = λ w o. outcome_as id (m w) (k.at w o) }

  refund_webhook_of-OneActive :
      (t : String) (h : RefundHint) (p : PaymentRow) (o : Option RefundRow)
      → Keeps (OneActive drawn_at) (refund_webhook_of to_utc from_utc new_id g t h p o)
  unfolding refund_webhook_of reconcile_hinted
  refund_webhook_of-OneActive t h p none = search (refund_rules, reconcile-OneActive)
  refund_webhook_of-OneActive t h p (some r) =
      search (refund_rules, reconcile-OneActive, save_refund_result-OneActive) depth 12

  refund_webhook_for-OneActive :
      (t : String) (h : RefundHint) (o : Option PaymentRow)
      → Keeps (OneActive drawn_at) (refund_webhook_for to_utc from_utc new_id g t h o)
  unfolding refund_webhook_for
  refund_webhook_for-OneActive t h none = search refund_rules
  refund_webhook_for-OneActive t h (some p) =
      search (refund_rules, refund_webhook_of-OneActive) depth 10

  refund_webhook-OneActive :
      (t : String) (o : Option RefundHint)
      → Keeps (OneActive drawn_at) (refund_webhook to_utc from_utc new_id g t o)
  unfolding refund_webhook
  refund_webhook-OneActive t none = search refund_rules
  refund_webhook-OneActive t (some h) = search (refund_rules, refund_webhook_for-OneActive) depth 10

  payment_webhook-OneActive :
      (id : String) → Keeps (OneActive drawn_at) (payment_webhook to_utc from_utc new_id g id)
  unfolding payment_webhook
  payment_webhook-OneActive id =
      search (table_rules, settle_payment-OneActive drawn_at new_id fresh to_utc from_utc) depth 12

  handle-OneActive :
      (h : Hook) → Keeps (OneActive drawn_at) (handle_webhook to_utc from_utc new_id g h)
  unfolding handle_webhook
  handle-OneActive h =
      search (keeps_rules, payment_webhook-OneActive, refund_webhook-OneActive) depth 10

  webhook-OneActive :
      (h : Hook) → Keeps (OneActive drawn_at) (process_billing_webhook to_utc from_utc new_id g h)
  unfolding process_billing_webhook process_event
  webhook-OneActive h =
      search (keeps_rules, upsert_event-OneActive, with_outcome-OneActive, handle-OneActive) depth
        14

-- one call of the service
pub data Call : Type 0 where
  order : String → CheckoutInput → Call
  verify : String → String → String → String → Call
  sync_payment sync_checkout sync_refund : String → String → Call
  refund : String → RefundInput → Call
  administrative : String → Option String → String → Call
  webhook : Hook → Call

-- the clock and the provider at a call
pub record Moment : Type 0 where
  pub time : ℕ
  pub provider : Gateway
  pub call : Call

module _ (to_utc : ℕ → UtcDate) (from_utc : UtcDate → ℕ) (new_id : ℕ → String)
    (upper : String → String) (id_before : String → String → Bool) (hmac : String → String)
    (to_minor : String → String → Option ℕ) where
  -- the ledger that a call leaves, whether it answers or throws
  unfoldable pub after_call : Gateway → Call → Ledger → Ledger
  unfolding create_billing_order verify_billing_payment sync_billing_payment sync_billing_checkout
      sync_billing_refund request_billing_refund request_administrative_refund
      process_billing_webhook
  after_call g (order user_id input) w =
      (create_billing_order to_utc from_utc new_id upper id_before g user_id input w).1
  after_call g (verify user_id order_id payment_id signature) w =
      (verify_billing_payment to_utc from_utc new_id hmac g user_id order_id payment_id signature
        w).1
  after_call g (sync_payment user_id id) w =
      (sync_billing_payment to_utc from_utc new_id g user_id id w).1
  after_call g (sync_checkout user_id id) w =
      (sync_billing_checkout to_utc from_utc new_id g user_id id w).1
  after_call g (sync_refund user_id id) w = (sync_billing_refund g user_id id w).1
  after_call g (refund user_id input) w = (request_billing_refund new_id g user_id input false w).1
  after_call g (administrative id amount reason) w =
      (request_administrative_refund new_id g to_minor id amount reason w).1
  after_call g (webhook h) w = (process_billing_webhook to_utc from_utc new_id g h w).1

  unfoldable pub after_calls : List Moment → Ledger → Ledger
  unfolding after_call
  after_calls [] w = w
  after_calls (m ∷ ms) w = after_calls ms (after_call m.provider m.call (record w { now = m.time }))

  module _ (drawn_at : String → ℕ) (fresh : (n : ℕ) → drawn_at (new_id n) ≡ n) where
    after_call-OneActive :
        (g : Gateway) (c : Call) (w : Ledger)
        → OneActive drawn_at w
        → OneActive drawn_at (after_call g c w)
    unfolding after_call
    after_call-OneActive g (order user_id input) w o =
        (create_order-OneActive drawn_at new_id fresh to_utc from_utc upper id_before g user_id
            input).at
          w o
    after_call-OneActive g (verify user_id order_id payment_id signature) w o =
        (verify-OneActive drawn_at new_id fresh to_utc from_utc hmac g user_id order_id payment_id
            signature).at
          w o
    after_call-OneActive g (sync_payment user_id id) w o =
        (sync_payment-OneActive drawn_at new_id fresh to_utc from_utc g user_id id).at w o
    after_call-OneActive g (sync_checkout user_id id) w o =
        (sync_checkout-OneActive drawn_at new_id fresh to_utc from_utc g user_id id).at w o
    after_call-OneActive g (sync_refund user_id id) w o =
        (sync_refund-OneActive drawn_at g user_id id).at w o
    after_call-OneActive g (refund user_id input) w o =
        (request_refund-OneActive drawn_at new_id g user_id input false).at w o
    after_call-OneActive g (administrative id amount reason) w o =
        (administrative-OneActive drawn_at new_id g to_minor id amount reason).at w o
    after_call-OneActive g (webhook h) w o =
        (webhook-OneActive drawn_at new_id fresh to_utc from_utc g h).at w o

    after_calls-OneActive :
        (ms : List Moment) (w : Ledger)
        → OneActive drawn_at w
        → OneActive drawn_at (after_calls ms w)
    unfolding after_calls
    after_calls-OneActive [] w o = o
    after_calls-OneActive (m ∷ ms) w o =
        after_calls-OneActive ms (after_call m.provider m.call (record w { now = m.time })) (
          after_call-OneActive m.provider m.call (record w { now = m.time })
            (OneActive-same drawn_at w (record w { now = m.time }) refl (omega arith) o))

    -- Whatever billing is asked, one call after another, at whatever times and with whatever replies of the
    -- provider, starting where each user has one active subscription at most: two active subscriptions
    -- of a user in the table afterwards have the same identifier. The identifiers that the database
    -- makes are told apart by `drawn_at`.
    pub OneActive-after_calls :
        (ms : List Moment) (w : Ledger) (i j : ℕ) (s t : Subscription)
        → OneActive drawn_at w
        → get_elem? (after_calls ms w).subscriptions i ≡ some s
        → get_elem? (after_calls ms w).subscriptions j ≡ some t
        → is_active_status s.status ≡ true
        → is_active_status t.status ≡ true
        → s.user_id ≡ t.user_id
        → s.id ≡ t.id
    OneActive-after_calls ms w i j s t o at_i at_j on_s on_t same =
        let k = after_calls-OneActive ms w o in
        let v = after_calls ms w in
        let fit = get_elem?-All (Fits drawn_at k.owner k.only v.drawn) v.subscriptions in
        (fit i s k.fits at_i).2 on_s ∙ ap k.only same ∙ sym ((fit j t k.fits at_j).2 on_t)
