-- ===== src/Purchases/Refunds.antt =====
-- Refunds at the provider: `saveRefundResult`, `submitRefund` and `syncBillingRefund`.
use url_shortner_system_desi.Common.{
  String, Bool, true, false, not, ◌&&◌, ◌||◌, Option, none, some, Action, find, ◌==◌, if◌then◌else◌,
  str_eq, pure, gets, throw, throw_if, ◌>>=◌, ◌>>◌, Result, ok, err, Error, app_error,
}
use url_shortner_system_desi.State.{sql_eq}
use url_shortner_system_desi.Purchases.State.{
  Ledger, PaymentRow, RefundRow, RefundStatus, requested, processing, pending, unknown, processed,
  failed, locked, update_refunds, is_payment, is_refund,
}
use url_shortner_system_desi.Purchases.Gateway.{Gateway, RefundEntity, request}
use url_shortner_system_desi.Purchases.Settlement.{read_result}
use url_shortner_system_desi.Purchases.Balance.{reconcile_refund_balance, or_empty_id}

module _ (g : Gateway) where
  abbrev pub status_of_entity : String → RefundStatus
  status_of_entity status =
      if str_eq status "processed"
      then processed
      else if str_eq status "failed"
      then failed
      else pending

  -- A processed refund is pending until the balance is reconciled.
  abbrev pub noted : RefundEntity → RefundRow → RefundRow
  noted e r = record r {
    gateway_refund_id = some e.id;
    status = elim (status_of_entity e.status) [
      | processed ↦ pending
      | failed ↦ failed
      | _ ↦ pending
    ];
    failure_reason =
        if str_eq e.status "failed"
        then some "The payment provider could not complete the refund. Contact billing support."
        else none;
  }

  abbrev pub is_done : RefundStatus → Bool
  is_done processed = true
  is_done _ = false

  abbrev other_reference : Option String → String → Bool
  other_reference none id = false
  other_reference (some known) id = not (str_eq known id)

  unfoldable pub note_fresh : RefundEntity → RefundRow → Action Ledger RefundRow
  unfolding update_refunds
  note_fresh e r = if is_done r.status then pure r else (do
    throw_if (other_reference r.gateway_refund_id e.id)
        (app_error "Refund reference mismatch requires billing review." 409)
    update_refunds (is_refund r.id) (noted e)
    pure (noted e r))

  unfoldable pub note_entity : RefundEntity → RefundRow → Action Ledger RefundRow
  unfolding note_fresh
  note_entity e r = do
    fresh ← gets (λ (s : Ledger). find (is_refund r.id) s.refunds)
    elim fresh [ none ↦ pure r | some q ↦ note_fresh e q ]

  abbrev pub mark_processed : RefundRow → RefundRow
  mark_processed r = record r { status = processed }

  abbrev pub refund_now : RefundRow → Ledger → RefundRow
  refund_now r s = elim (find (is_refund r.id) s.refunds) [ none ↦ r | some q ↦ q ]

  unfoldable pub finish_refund : PaymentRow → RefundRow → RefundEntity → Action Ledger RefundRow
  unfolding reconcile_refund_balance update_refunds
  finish_refund p r e = do
    if str_eq e.status "processed"
        then (do
          reconcile_refund_balance g p (some e.id)
          update_refunds (is_refund r.id) mark_processed)
        else pure tt
    gets (refund_now r)

  unfoldable pub save_refund_result :
      PaymentRow → RefundRow → RefundEntity → Action Ledger RefundRow
  unfolding locked note_entity finish_refund
  save_refund_result p r e = do
    throw_if
        (str_eq e.id ""
          || (not (sql_eq (some e.payment_id) p.gateway_payment_id) || not (e.amount == r.amount)))
        (app_error "The provider refund response needs review." 409)
    current ← locked (note_entity e r)
    if is_done current.status then pure current else finish_refund p r e

  abbrev is_unsent : RefundStatus → Bool
  is_unsent requested = true
  is_unsent unknown = true
  is_unsent processing = true
  is_unsent _ = false

  abbrev is_processing : RefundStatus → Bool
  is_processing processing = true
  is_processing _ = false

  abbrev has_reference : RefundRow → Bool
  has_reference r = elim r.gateway_refund_id [ none ↦ false | some id ↦ true ]

  abbrev pub starts_processing : RefundRow → RefundRow
  starts_processing r = record r { status = processing }

  abbrev is_rejection : Option String → Bool
  is_rejection none = false
  is_rejection (some code) = str_eq code "PAYMENT_REJECTED"

  abbrev pub refused : Error → RefundRow → RefundRow
  refused e r = record r {
    status = if is_rejection e.error_code then failed else unknown;
    failure_reason = some e.message;
  }

  unfoldable pub receive_refund :
      PaymentRow → RefundRow → Result RefundEntity → Action Ledger RefundRow
  unfolding save_refund_result update_refunds
  receive_refund p r (ok e) = save_refund_result p r e
  receive_refund p r (err e) = do
    update_refunds (λ q. is_refund r.id q && (is_processing q.status && not (has_reference q)))
        (refused e)
    throw e

  abbrev pub is_final : RefundStatus → Bool
  is_final processed = true
  is_final failed = true
  is_final _ = false

  unfoldable pub send_refund : PaymentRow → RefundRow → Action Ledger RefundRow
  unfolding receive_refund update_refunds request
  send_refund p r = do
    update_refunds (λ q. is_refund r.id q && (is_unsent q.status && not (has_reference q)))
        starts_processing
    receive_refund p r
        (request g (g.create_refund (or_empty_id p.gateway_payment_id) r.amount r.id))

  unfoldable pub look_up_refund : PaymentRow → RefundRow → Option String → Action Ledger RefundRow
  unfolding save_refund_result request send_refund
  look_up_refund p r none = send_refund p r
  look_up_refund p r (some id) = do
    e ← read_result (request g (g.refund id))
    save_refund_result p r e

  unfoldable pub submit_refund : PaymentRow → RefundRow → Action Ledger RefundRow
  unfolding look_up_refund send_refund
  submit_refund p r = do
    fresh ← gets (refund_now r)
    if is_final fresh.status then pure fresh else elim fresh.gateway_refund_id [
      | none ↦ send_refund p r
      | some id ↦ look_up_refund p fresh (some id)
    ]

  abbrev pub refund_for : String → Ledger → Option RefundRow
  refund_for payment_id s = find (λ (r : RefundRow). str_eq r.payment_id payment_id) s.refunds

  unfoldable pub sync_found : PaymentRow → Option RefundRow → Action Ledger RefundRow
  unfolding look_up_refund submit_refund
  sync_found p none = throw (app_error "Refund request not found." 404)
  sync_found p (some r) = if is_final r.status then pure r else elim r.gateway_refund_id [
    | none ↦ submit_refund p r
    | some id ↦ look_up_refund p r (some id)
  ]

  unfoldable pub own_payment : String → Option PaymentRow → Action Ledger PaymentRow
  own_payment user_id none = throw (app_error "Payment not found." 404)
  own_payment user_id (some p) =
      if str_eq p.user_id user_id then pure p else throw (app_error "Payment not found." 404)

  unfoldable pub sync_billing_refund : String → String → Action Ledger RefundRow
  unfolding own_payment sync_found
  sync_billing_refund user_id payment_id = do
    found ← gets (λ (s : Ledger). find (is_payment payment_id) s.payments)
    p ← own_payment user_id found
    r ← gets (refund_for payment_id)
    sync_found p r
