-- ===== src/Purchases/Settlement.antt =====
-- `recoverPayment`, `settlePayment`, `verifyBillingPayment` and `validSignature`.
use url_shortner_system_desi.Common.{
  Error, ℕ, ◌*◌, min, String, Bool, true, false, not, ◌&&◌, ◌||◌, Option, none, some, List, [], ◌∷◌,
  ◌++◌, Action, find, any, leb, ◌==◌, if◌then◌else◌, str_eq, pure, gets, throw, throw_if, ◌>>=◌,
  ◌>>◌, Result, ok, err, app_error, is_empty, count_chars, all_chars, concat, lowercase,
}
use url_shortner_system_desi.State.{sql_eq}
use url_shortner_system_desi.Billing.Period.{UtcDate}
use url_shortner_system_desi.Billing.Policy.{
  PaymentStatus, created, authorized, captured, failed, refunded, partially_refunded,
}
use url_shortner_system_desi.Purchases.State.{
  Ledger, Checkout, PaymentRow, of_payment, locked, invalidate_subscription_cache, update_payment,
  update_checkouts, is_checkout, is_payment,
}
use url_shortner_system_desi.Purchases.Gateway.{Gateway, Order, Entity, request}
use url_shortner_system_desi.Purchases.Activation.{activate}
use url_shortner_system_desi.Purchases.Attempts.{payment_of, is_order_of, save_payment}

abbrev pub mismatched_order : Error
mismatched_order =
    app_error "Unknown payment order. Billing support must review this transaction." 409

-- the row of an order that this server did not write down
abbrev pub recovered_payment : Checkout → String → ℕ → String → PaymentRow
recovered_payment c order_id now id = record (payment_of c order_id now id) {
  status = created;
  gateway = "razorpay";
}

abbrev pub attempt_for : Option String → Ledger → Option Checkout
attempt_for none s = none
attempt_for (some id) s = find (is_checkout id) s.checkouts

abbrev pub read_result : {A : Type 0} → Result A → Action Ledger A
read_result (ok a) = pure a
read_result (err e) = throw e

abbrev pub is_settled_status : PaymentStatus → Bool
is_settled_status captured = true
is_settled_status refunded = true
is_settled_status partially_refunded = true
is_settled_status _ = false

abbrev pub is_authorized : PaymentStatus → Bool
is_authorized authorized = true
is_authorized _ = false

-- `[...new Set([...list, id])]`
abbrev pub with_charge : String → List String → List String
with_charge id charges = if any (λ c. str_eq c id) charges then charges else charges ++ id ∷ []

-- an excess charge is kept for support
abbrev pub charged_twice : String → PaymentRow → PaymentRow
charged_twice id p = record p {
  metadata = record p.metadata {
    duplicate_charges = with_charge id p.metadata.duplicate_charges;
    fulfillment_status = some "REVIEW_REQUIRED";
  };
}

-- the provider's time in seconds, but never a later one than now
abbrev pub paid_at : ℕ → Option ℕ → ℕ
paid_at now none = now
paid_at now (some seconds) = if seconds == 0 then now else min now (seconds * 1000)

abbrev pub captured_by : ℕ → Entity → PaymentRow → PaymentRow
captured_by now e p = record p {
  status = captured;
  gateway_payment_id = some e.id;
  failure_reason = none;
  metadata = record p.metadata { paid_at = some (paid_at now e.created_at) };
}

abbrev pub authorized_by : Entity → PaymentRow → PaymentRow
authorized_by e p = record p { status = authorized; gateway_payment_id = some e.id }

abbrev pub declined : PaymentRow → PaymentRow
declined p = record p {
  status = failed;
  failure_reason = some "The payment was declined or could not be completed.";
}

module _ (to_utc : ℕ → UtcDate) (from_utc : UtcDate → ℕ) (new_id : ℕ → String) (g : Gateway) where
  -- the order is the one that its checkout asked for
  unfoldable pub adopt_order : Order → Option Checkout → Action Ledger PaymentRow
  unfolding locked save_payment
  adopt_order order none = throw mismatched_order
  adopt_order order (some c) =
      if order.amount == c.amount && str_eq order.currency c.currency
      then locked (save_payment new_id (recovered_payment c order.id) c order.id)
      else throw mismatched_order

  unfoldable pub recover_unknown : String → Action Ledger PaymentRow
  unfolding request adopt_order
  recover_unknown order_id = do
    order ← read_result (request g (g.order order_id))
    c ← gets (attempt_for order.checkout_id)
    adopt_order (record order { id = order_id }) c

  unfoldable pub recover_payment : String → Action Ledger PaymentRow
  unfolding recover_unknown
  recover_payment order_id = do
    found ← gets (λ (s : Ledger). find (is_order_of order_id) s.payments)
    elim found [ none ↦ recover_unknown order_id | some p ↦ pure p ]

  unfoldable pub settle_open : Entity → PaymentRow → Action Ledger PaymentRow
  unfolding update_payment activate
  settle_open e p =
      if str_eq e.status "captured"
      then (do
        now ← gets (λ (s : Ledger). s.now)
        q ← update_payment (captured_by now e) p
        activate to_utc from_utc new_id q)
      else if str_eq e.status "authorized"
      then update_payment (authorized_by e) p
      else if str_eq e.status "failed" && not (is_authorized p.status)
      then update_payment declined p
      else pure p

  unfoldable pub follow_payment : PaymentRow → Option String → Action Ledger (Unit {0})
  unfolding update_checkouts
  follow_payment p none = pure tt
  follow_payment p (some id) =
      update_checkouts (is_checkout id) (λ c. record c { status = of_payment p.status })

  -- the transaction, with the row that it reads again
  unfoldable pub settle_row : Entity → PaymentRow → Action Ledger PaymentRow
  unfolding settle_open follow_payment update_payment
  settle_row e p =
      if is_settled_status p.status
      then if str_eq e.status "captured" && not (sql_eq p.gateway_payment_id (some e.id))
        then update_payment (charged_twice e.id) p
        else pure p
      else (do q ← settle_open e p; follow_payment q q.metadata.checkout_id; pure q)

  abbrev pub same_terms : Entity → PaymentRow → Bool
  same_terms e p = e.amount == p.amount && str_eq e.currency p.currency

  -- a row that a transaction reads again is there
  unfoldable pub settle_fresh : Entity → PaymentRow → Action Ledger PaymentRow
  unfolding settle_row
  settle_fresh e original = do
    fresh ← gets (λ (s : Ledger). find (is_payment original.id) s.payments)
    elim fresh [ none ↦ pure original | some p ↦ settle_row e p ]

  unfoldable pub settle_original : Entity → PaymentRow → Action Ledger PaymentRow
  unfolding settle_fresh locked invalidate_subscription_cache
  settle_original e original = do
    throw_if (not (same_terms e original))
        (app_error "Provider payment amount or currency does not match the order." 409)
    p ← locked (settle_fresh e original)
    invalidate_subscription_cache original.user_id
    pure p

  unfoldable pub settle_payment : Entity → Action Ledger PaymentRow
  unfolding recover_payment settle_original
  settle_payment e = do
    throw_if (is_empty e.order_id || is_empty e.id) (app_error "Invalid provider payment." 400)
    original ← recover_payment e.order_id
    settle_original e original

abbrev is_hex : ℕ → Bool
is_hex c = leb b'a' c && leb c b'f' || leb b'A' c && leb c b'F' || leb b'0' c && leb c b'9'

-- 64 hexadecimal digits in either case, compared as bytes
unfoldable pub valid_signature : String → String → Bool
unfolding lowercase
valid_signature value expected =
    all_chars is_hex value
    && count_chars value == 64
    && str_eq (lowercase value) (lowercase expected)

-- `hmac` is the signature with the key of the provider, in hexadecimal
module _ (to_utc : ℕ → UtcDate) (from_utc : UtcDate → ℕ) (new_id : ℕ → String)
    (hmac : String → String) (g : Gateway) where
  unfoldable pub verify_found :
      String → String → String → Option PaymentRow → Action Ledger PaymentRow
  unfolding valid_signature request settle_payment
  verify_found user_id payment_id signature none = throw (app_error "Payment not found." 404)
  verify_found user_id payment_id signature (some p) = do
    throw_if (not (str_eq p.user_id user_id) || not (str_eq p.gateway "razorpay"))
        (app_error "Payment not found." 404)
    throw_if
        (not
          (valid_signature signature (hmac (concat (p.gateway_order_id ∷ "|" ∷ payment_id ∷ [])))))
        (app_error "Payment signature verification failed." 400)
    e ← read_result (request g (g.payment payment_id))
    throw_if (not (str_eq e.order_id p.gateway_order_id))
        (app_error "Payment does not belong to this order." 400)
    settle_payment to_utc from_utc new_id g e

  unfoldable pub verify_billing_payment :
      String → String → String → String → Action Ledger PaymentRow
  unfolding verify_found
  verify_billing_payment user_id order_id payment_id signature = do
    throw_if (not g.is_configured) (app_error "Invalid payment verification request." 400)
    found ← gets (λ (s : Ledger). find (is_order_of order_id) s.payments)
    verify_found user_id payment_id signature found
