-- ===== src/Purchases/Requests.antt =====
-- `requestBillingRefund` and `requestAdministrativeRefund`. `to_minor` is `Number`, `Math.round` and
-- `currencyMinorFactor` on an amount and a currency, `none` where no safe integer comes out.
use url_shortner_system_desi.Common.{
  ℕ, ◌+◌, ◌-◌, String, Bool, true, false, not, ◌&&◌, ◌||◌, Option, none, some, [], ◌∷◌, ◌++◌,
  Action, find, ltb, ◌==◌, if◌then◌else◌, str_eq, pure, gets, throw, throw_if, ◌>>=◌, ◌>>◌, ok,
  Error, app_error, trim, count_chars, truthy, is_empty,
}
use url_shortner_system_desi.Billing.Policy.{Payment, refund_eligibility, is_refundable}
use url_shortner_system_desi.Purchases.Refunds.{submit_refund, own_payment, refund_for}
use url_shortner_system_desi.Purchases.State.{
  requested, is_payment, Ledger, locked, RefundRow, PaymentRow,
}
use url_shortner_system_desi.Purchases.Gateway.{Gateway}

pub record RefundInput : Type 0 where
  pub payment_id : String
  pub reason : String
  pub note : String
  pub accepted_terms : Bool

abbrev pub bad_refund_input : Error
bad_refund_input =
    app_error
      "Choose a reason and acknowledge the refund terms. Notes may contain up to 1,000 characters."
      400

abbrev pub is_bad_input : RefundInput → Bool
is_bad_input i =
    ltb (count_chars (trim i.reason)) 3
    || ltb 200 (count_chars i.reason)
    || ltb 1000 (count_chars i.note)
    || not i.accepted_terms

-- `metadata?.paidAt || created_at`
abbrev first_time : Option ℕ → ℕ → ℕ
first_time none created_at = created_at
first_time (some t) created_at = t

abbrev pub policy_view : PaymentRow → Payment
policy_view p = record {
  amount = p.amount;
  refunded_amount = p.refunded_amount;
  status = p.status;
  gateway = p.gateway;
  gateway_payment_id = p.gateway_payment_id;
  paid_at = first_time p.metadata.paid_at p.created_at;
}

abbrev pub is_administrator_eligible : Bool → PaymentRow → Bool
is_administrator_eligible administrator p =
    administrator
    && (is_refundable p.status
        && (ltb 0 (p.amount - p.refunded_amount)
            && (str_eq p.gateway "razorpay" && truthy p.gateway_payment_id)))

abbrev pub new_refund : String → RefundInput → PaymentRow → String → RefundRow
new_refund user_id i p id = record {
  id = id;
  payment_id = p.id;
  user_id = user_id;
  amount = p.amount - p.refunded_amount;
  status = requested;
  gateway_refund_id = none;
  reason = trim i.reason;
  note = trim i.note;
  failure_reason = none;
}

pub record ReservedRefund : Type 0 where
  pub payment : PaymentRow
  pub refund : RefundRow
  pub is_existing : Bool

module _ (new_id : ℕ → String) (g : Gateway) where
  unfoldable pub create_refund_row :
      String → RefundInput → PaymentRow → Action Ledger ReservedRefund
  create_refund_row user_id i p s =
      let r = new_refund user_id i p (new_id s.drawn) in
      (
        ok (record { payment = p; refund = r; is_existing = false }),
        record s { drawn = s.drawn + 1; refunds = s.refunds ++ r ∷ [] },
      )

  unfoldable pub reserve_refund :
      String → RefundInput → Bool → PaymentRow → Option RefundRow → Action Ledger ReservedRefund
  unfolding refund_eligibility create_refund_row
  reserve_refund user_id i administrator p (some r) =
      pure (record { payment = p; refund = r; is_existing = true })
  reserve_refund user_id i administrator p none = do
    now ← gets (λ (s : Ledger). s.now)
    let eligibility = refund_eligibility (policy_view p) none now
    throw_if (not eligibility.eligible && not (is_administrator_eligible administrator p))
        (app_error eligibility.reason 409)
    create_refund_row user_id i p

  unfoldable pub request_billing_refund : String → RefundInput → Bool → Action Ledger RefundRow
  unfolding locked own_payment reserve_refund submit_refund
  request_billing_refund user_id i administrator = do
    throw_if (is_bad_input i) bad_refund_input
    throw_if (not g.is_configured)
        (app_error "Refund processing is unavailable. Contact billing support." 409)
    r ← locked (do
      found ← gets (λ (s : Ledger). find (is_payment i.payment_id) s.payments)
      p ← own_payment g user_id found
      existing ← gets (refund_for g i.payment_id)
      reserve_refund user_id i administrator p existing)
    if r.is_existing then pure r.refund else submit_refund g r.payment r.refund

  abbrev only_in_full : Error
  only_in_full =
      app_error
        "Only the full remaining balance can be refunded here. Issue partial refunds in the provider dashboard, then reconcile payment status."
        400

  abbrev or_review : String → String
  or_review reason = if is_empty reason then "Administrative billing review" else reason

  module _ (to_minor : String → String → Option ℕ) where
    abbrev pub requested_amount : PaymentRow → Option String → Option ℕ
    requested_amount p none = some (p.amount - p.refunded_amount)
    requested_amount p (some amount) = to_minor amount p.currency

    -- all that is left of a payment, and not nothing
    abbrev pub is_full : PaymentRow → Option ℕ → Bool
    is_full p none = false
    is_full p (some n) = ltb 0 n && n == p.amount - p.refunded_amount

    unfoldable pub refund_found :
        Option PaymentRow → Option String → String → Action Ledger RefundRow
    unfolding request_billing_refund
    refund_found none amount reason = throw (app_error "Payment not found." 404)
    refund_found (some p) amount reason = do
      throw_if (not (is_full p (requested_amount p amount))) only_in_full
      request_billing_refund p.user_id
          (record {
            payment_id = p.id;
            reason = or_review reason;
            note = "";
            accepted_terms = true;
          })
          true

    unfoldable pub request_administrative_refund :
        String → Option String → String → Action Ledger RefundRow
    unfolding refund_found
    request_administrative_refund payment_id amount reason = do
      found ← gets (λ (s : Ledger). find (is_payment payment_id) s.payments)
      refund_found found amount reason
