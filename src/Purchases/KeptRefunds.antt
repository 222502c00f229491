-- ===== src/Purchases/KeptRefunds.antt =====
-- What refunds do to the active subscriptions.
use url_shortner_system_desi.Common.{
  ℕ, String, Bool, Option, none, some, refl, arith, Result, ok, err, Keeps, Keeps-pure, Keeps-if,
  pure,
}
use url_shortner_system_desi.Purchases.Gateway.{Gateway, RefundEntity}
use url_shortner_system_desi.Purchases.Withdrawal.{withdraw-OneActive}
use url_shortner_system_desi.Purchases.Kept.{Keeps-case, Keeps-found, table_rules}
use url_shortner_system_desi.Purchases.State.{RefundRow, update_refunds, PaymentRow}
use url_shortner_system_desi.Purchases.Refunds.{
  is_final, submit_refund, note_entity, sync_billing_refund, note_fresh, send_refund, own_payment,
  save_refund_result, look_up_refund, receive_refund, sync_found, finish_refund,
}
use url_shortner_system_desi.Purchases.Balance.{
  withdraw_paid, reconcile_refund_balance, apply_total, apply_refunds,
}
use url_shortner_system_desi.Purchases.OneActive.{Keeps-modify, OneActive}

module _ (drawn_at : String → ℕ) where
  pub update_refunds-OneActive :
      (p : RefundRow → Bool) (f : RefundRow → RefundRow)
      → Keeps (OneActive drawn_at) (update_refunds p f)
  unfolding update_refunds
  update_refunds-OneActive p f = Keeps-modify drawn_at _ (λ w. refl) (λ w. omega arith)

  pub withdraw_paid-OneActive :
      (p : PaymentRow) (o : Option String) → Keeps (OneActive drawn_at) (withdraw_paid p o)
  unfolding withdraw_paid
  withdraw_paid-OneActive p none = search table_rules
  withdraw_paid-OneActive p (some id) = withdraw-OneActive drawn_at p id

  pub ruleset refund_rules = (table_rules, update_refunds-OneActive, withdraw_paid-OneActive)

  apply_total-OneActive :
      (p : PaymentRow) (total : ℕ) (q : PaymentRow)
      → Keeps (OneActive drawn_at) (apply_total p total q)
  unfolding apply_total
  apply_total-OneActive p total q = search refund_rules depth 12

  apply_refunds-OneActive :
      (p : PaymentRow) (total : ℕ) → Keeps (OneActive drawn_at) (apply_refunds p total)
  unfolding apply_refunds
  apply_refunds-OneActive p total =
      Keeps-found _ (pure tt) (apply_total p total) Keeps-pure (apply_total-OneActive p total)

  module _ (g : Gateway) where
    pub reconcile-OneActive :
        (p : PaymentRow) (expected : Option String)
        → Keeps (OneActive drawn_at) (reconcile_refund_balance g p expected)
    unfolding reconcile_refund_balance
    reconcile-OneActive p expected = search (refund_rules, apply_refunds-OneActive) depth 16

    note_fresh-OneActive :
        (e : RefundEntity) (r : RefundRow) → Keeps (OneActive drawn_at) (note_fresh g e r)
    unfolding note_fresh
    note_fresh-OneActive e r = search refund_rules depth 12

    note_entity-OneActive :
        (e : RefundEntity) (r : RefundRow) → Keeps (OneActive drawn_at) (note_entity g e r)
    unfolding note_entity
    note_entity-OneActive e r =
        Keeps-found _ (pure r) (note_fresh g e) Keeps-pure (note_fresh-OneActive e)

    finish_refund-OneActive :
        (p : PaymentRow) (r : RefundRow) (e : RefundEntity)
        → Keeps (OneActive drawn_at) (finish_refund g p r e)
    unfolding finish_refund
    finish_refund-OneActive p r e = search (refund_rules, reconcile-OneActive) depth 12

    pub save_refund_result-OneActive :
        (p : PaymentRow) (r : RefundRow) (e : RefundEntity)
        → Keeps (OneActive drawn_at) (save_refund_result g p r e)
    unfolding save_refund_result
    save_refund_result-OneActive p r e =
        search (refund_rules, note_entity-OneActive, finish_refund-OneActive) depth 14

    receive_refund-OneActive :
        (p : PaymentRow) (r : RefundRow) (x : Result RefundEntity)
        → Keeps (OneActive drawn_at) (receive_refund g p r x)
    unfolding receive_refund
    receive_refund-OneActive p r (ok e) = save_refund_result-OneActive p r e
    receive_refund-OneActive p r (err e) = search refund_rules depth 10

    send_refund-OneActive :
        (p : PaymentRow) (r : RefundRow) → Keeps (OneActive drawn_at) (send_refund g p r)
    unfolding send_refund
    send_refund-OneActive p r = search (refund_rules, receive_refund-OneActive) depth 12

    look_up_refund-OneActive :
        (p : PaymentRow) (r : RefundRow) (o : Option String)
        → Keeps (OneActive drawn_at) (look_up_refund g p r o)
    unfolding look_up_refund
    look_up_refund-OneActive p r none = send_refund-OneActive p r
    look_up_refund-OneActive p r (some id) =
        search (refund_rules, save_refund_result-OneActive) depth 12

    submit_fresh-OneActive :
        (p : PaymentRow) (r q : RefundRow)
        → Keeps (OneActive drawn_at) (elim q.gateway_refund_id [
          | none ↦ send_refund g p r
          | some id ↦ look_up_refund g p q (some id)
        ])
    submit_fresh-OneActive p r q =
        Keeps-case q.gateway_refund_id (send_refund-OneActive p r)
          (λ id. look_up_refund-OneActive p q (some id))

    pub submit_refund-OneActive :
        (p : PaymentRow) (r : RefundRow) → Keeps (OneActive drawn_at) (submit_refund g p r)
    unfolding submit_refund
    submit_refund-OneActive p r = search (refund_rules, submit_fresh-OneActive) depth 12

    sync_found-OneActive :
        (p : PaymentRow) (o : Option RefundRow) → Keeps (OneActive drawn_at) (sync_found g p o)
    unfolding sync_found
    sync_found-OneActive p none = search refund_rules
    sync_found-OneActive p (some r) = Keeps-if (is_final g r.status) Keeps-pure (
        Keeps-case r.gateway_refund_id (submit_refund-OneActive p r)
          (λ id. look_up_refund-OneActive p r (some id)))

    pub own_payment-OneActive :
        (user_id : String) (o : Option PaymentRow)
        → Keeps (OneActive drawn_at) (own_payment g user_id o)
    unfolding own_payment
    own_payment-OneActive user_id none = search refund_rules
    own_payment-OneActive user_id (some p) = search refund_rules

    pub sync_refund-OneActive :
        (user_id payment_id : String)
        → Keeps (OneActive drawn_at) (sync_billing_refund g user_id payment_id)
    unfolding sync_billing_refund
    sync_refund-OneActive user_id payment_id =
        search (refund_rules, own_payment-OneActive, sync_found-OneActive) depth 12
