-- ===== src/Purchases/Webhooks.antt =====
-- `processBillingWebhook`.
use url_shortner_system_desi.Common.{
  ℕ, ◌+◌, String, Bool, true, false, ◌||◌, Option, none, some, [], ◌∷◌, ◌++◌, Action, find, ◌==◌,
  if◌then◌else◌, str_eq, update_where, pure, gets, throw, throw_if, ◌>>=◌, ◌>>◌, ok, err, app_error,
  is_empty,
}
use url_shortner_system_desi.Purchases.Settlement.{settle_payment, read_result}
use url_shortner_system_desi.Purchases.Balance.{reconcile_refund_balance}
use url_shortner_system_desi.Purchases.Refunds.{save_refund_result, refund_for}
use url_shortner_system_desi.Purchases.State.{PaymentRow, Ledger, WebhookEvent, RefundRow}
use url_shortner_system_desi.Billing.Period.{UtcDate}
use url_shortner_system_desi.Purchases.Gateway.{request, Gateway}
use url_shortner_system_desi.State.{sql_eq}

pub record RefundHint : Type 0 where
  pub id : String
  pub payment_id : String
  pub amount : ℕ

-- what the handler reads of a payload; an empty text is a field that is missing
pub record Hook : Type 0 where
  pub event_id : String
  pub event_type : String
  pub payment_hint : String
  pub refund_hint : Option RefundHint

abbrev pub is_event : String → WebhookEvent → Bool
is_event event_id w = str_eq w.event_id event_id

abbrev is_row : String → WebhookEvent → Bool
is_row id w = str_eq w.id id

abbrev pub is_handled : Option WebhookEvent → Bool
is_handled none = false
is_handled (some w) = w.processed

abbrev pub handled : ℕ → WebhookEvent → WebhookEvent
handled now w = record w { processed = true; processed_at = some now; processing_error = none }

abbrev pub failed_with : String → WebhookEvent → WebhookEvent
failed_with message w = record w { processing_error = some message }

abbrev pub is_payment_event : String → Bool
is_payment_event t =
    str_eq t "payment.captured" || str_eq t "payment.authorized" || str_eq t "payment.failed"

abbrev pub is_refund_event : String → Bool
is_refund_event t =
    str_eq t "refund.processed" || str_eq t "refund.failed" || str_eq t "refund.created"

unfoldable pub update_webhook : String → (WebhookEvent → WebhookEvent) → Ledger → Ledger
update_webhook id f s = record s { webhooks = update_where (is_row id) f s.webhooks }

-- what the `try` of the handler keeps of its body
unfoldable pub with_outcome : String → Action Ledger (Unit {0}) → Action Ledger (Unit {0})
unfolding update_webhook
with_outcome id m s = elim (m s).0 [
  | ok a ↦ (ok tt, update_webhook id (handled (m s).1.now) (m s).1)
  | err e ↦ (err e, update_webhook id (failed_with e.message) (m s).1)
]

abbrev new_event : Hook → String → WebhookEvent
new_event h id = record {
  id = id;
  event_id = h.event_id;
  event_type = h.event_type;
  processed = false;
  processed_at = none;
  processing_error = none;
}

-- the refund that the webhook is about
abbrev pub is_refund_hinted : RefundHint → RefundRow → Bool
is_refund_hinted h r = elim r.gateway_refund_id [
  | none ↦ r.amount == h.amount
  | some id ↦ str_eq id h.id
]

module _ (to_utc : ℕ → UtcDate) (from_utc : UtcDate → ℕ) (new_id : ℕ → String) (g : Gateway) where
  unfoldable pub upsert_event : Hook → Option WebhookEvent → Action Ledger String
  upsert_event h (some w) s = (ok w.id, s)
  upsert_event h none s = (
    ok (new_id s.drawn),
    record s { drawn = s.drawn + 1; webhooks = s.webhooks ++ new_event h (new_id s.drawn) ∷ [] },
  )

  -- Webhooks can arrive out of order: the provider is asked for the payment.
  unfoldable pub payment_webhook : String → Action Ledger (Unit {0})
  unfolding request settle_payment
  payment_webhook id = do
    throw_if (is_empty id) (app_error "Invalid payment webhook." 400)
    e ← read_result (request g (g.payment id))
    _ ← settle_payment to_utc from_utc new_id g e
    pure tt

  unfoldable pub reconcile_hinted : String → RefundHint → PaymentRow → Action Ledger (Unit {0})
  unfolding reconcile_refund_balance
  reconcile_hinted event_type h p =
      reconcile_refund_balance g p
        (if str_eq event_type "refund.processed" then some h.id else none)

  unfoldable pub refund_webhook_of :
      String → RefundHint → PaymentRow → Option RefundRow → Action Ledger (Unit {0})
  unfolding request save_refund_result reconcile_hinted
  refund_webhook_of event_type h p none = reconcile_hinted event_type h p
  refund_webhook_of event_type h p (some r) =
      if is_refund_hinted h r
      then (do e ← read_result (request g (g.refund h.id)); _ ← save_refund_result g p r e; pure tt)
      else reconcile_hinted event_type h p

  unfoldable pub refund_webhook_for :
      String → RefundHint → Option PaymentRow → Action Ledger (Unit {0})
  unfolding refund_webhook_of
  refund_webhook_for event_type h none = throw (app_error "Payment for refund not found." 409)
  refund_webhook_for event_type h (some p) = do
    r ← gets (refund_for g p.id)
    refund_webhook_of event_type h p r

  unfoldable pub refund_webhook : String → Option RefundHint → Action Ledger (Unit {0})
  unfolding refund_webhook_for
  refund_webhook event_type none = throw (app_error "Invalid refund webhook." 400)
  refund_webhook event_type (some h) = do
    throw_if (is_empty h.payment_id) (app_error "Invalid refund webhook." 400)
    found ← gets (λ (s : Ledger).
        find (λ (p : PaymentRow). sql_eq p.gateway_payment_id (some h.payment_id)) s.payments)
    refund_webhook_for event_type h found

  unfoldable pub handle_webhook : Hook → Action Ledger (Unit {0})
  unfolding payment_webhook refund_webhook
  handle_webhook h =
      if is_payment_event h.event_type
      then payment_webhook h.payment_hint
      else if is_refund_event h.event_type
      then refund_webhook h.event_type h.refund_hint
      else pure tt

  unfoldable pub process_event : Hook → Option WebhookEvent → Action Ledger (Unit {0})
  unfolding upsert_event with_outcome handle_webhook
  process_event h old =
      if is_handled old
      then pure tt
      else (do id ← upsert_event h old; with_outcome id (handle_webhook h))

  unfoldable pub process_billing_webhook : Hook → Action Ledger (Unit {0})
  unfolding process_event
  process_billing_webhook h = do
    old ← gets (λ (s : Ledger). find (is_event h.event_id) s.webhooks)
    process_event h old
