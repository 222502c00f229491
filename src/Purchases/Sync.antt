-- ===== src/Purchases/Sync.antt =====
-- `syncBillingPayment` and `syncBillingCheckout`. They answer with the rows that `publicPayment`
-- shows.
use url_shortner_system_desi.Common.{
  ℕ, ◌+◌, String, Bool, true, not, ◌&&◌, Option, none, some, List, [], ◌∷◌, ◌++◌, Action, find,
  select, ltb, ◌==◌, if◌then◌else◌, str_eq, pure, gets, throw, ◌>>=◌, ◌>>◌, Error, app_error,
  truthy, concat,
}
use url_shortner_system_desi.Billing.Policy.{PaymentStatus, is_refundable}
use url_shortner_system_desi.Purchases.Refunds.{
  sync_billing_refund, own_payment, refund_for, is_done,
}
use url_shortner_system_desi.Purchases.Balance.{reconcile_refund_balance}
use url_shortner_system_desi.Purchases.Settlement.{settle_payment, recover_payment, read_result}
use url_shortner_system_desi.Purchases.State.{
  is_checkout, of_payment, invalidate_subscription_cache, update_checkouts, locked, is_payment,
  Checkout, RefundRow, Ledger, PaymentRow,
}
use url_shortner_system_desi.Purchases.Gateway.{provider_error, request, Gateway, Order, Entity}
use url_shortner_system_desi.Billing.Period.{UtcDate}
use url_shortner_system_desi.Purchases.Attempts.{
  payment_of, is_order_of, has_payment, upsert_payment,
}
use url_shortner_system_desi.Purchases.Activation.{activate}
use url_shortner_system_desi.State.{sql_eq}

pub data SyncAnswer : Type 0 where
  shown_payment : PaymentRow → Option RefundRow → SyncAnswer
  not_created : String → SyncAnswer

abbrev pub read_items : {A : Type 0} → String → Option (List A) → Action Ledger (List A)
read_items message none = throw (app_error message 409)
read_items message (some items) = pure items

abbrev has_status : String → Entity → Bool
has_status status e = str_eq e.status status

abbrev or_find : Option Entity → Option Entity → Option Entity
or_find (some e) found = some e
or_find none found = found

-- a captured payment of the order, or an authorized one, or one that failed
abbrev pub leading_payment : List Entity → Option Entity
leading_payment items =
    or_find (find (has_status "captured") items)
      (or_find (find (has_status "authorized") items) (find (has_status "failed") items))

abbrev is_other : Option Entity → Entity → Bool
is_other none e = true
is_other (some f) e = not (str_eq e.id f.id)

abbrev pub extra_charges : Option Entity → List Entity → List Entity
extra_charges leading items = select (λ e. has_status "captured" e && is_other leading e) items

abbrev to_list : {A : Type 0} → Option A → List A
to_list none = []
to_list (some a) = a ∷ []

-- the orders at the provider that are a checkout's
abbrev pub is_order_for : String → Order → Bool
is_order_for id order = str_eq order.receipt id && sql_eq order.checkout_id (some id)

abbrev pub payment_now : PaymentRow → Ledger → PaymentRow
payment_now p s = elim (find (is_payment p.id) s.payments) [ none ↦ p | some q ↦ q ]

module _ (to_utc : ℕ → UtcDate) (from_utc : UtcDate → ℕ) (new_id : ℕ → String) (g : Gateway) where
  unfoldable pub settle_each : List Entity → Action Ledger (Unit {0})
  unfolding settle_payment
  settle_each [] = pure tt
  settle_each (e ∷ es) = do _ ← settle_payment to_utc from_utc new_id g e; settle_each es

  -- the provider's total of a payment's refunds
  unfoldable pub follow_total : PaymentRow → Action Ledger (Unit {0})
  unfolding reconcile_refund_balance
  follow_total p =
      if truthy p.gateway_payment_id && is_refundable p.status
      then reconcile_refund_balance g p none
      else pure tt

  -- the refund that is not processed yet, or the total
  unfoldable pub follow_refunds : String → PaymentRow → Option RefundRow → Action Ledger (Unit {0})
  unfolding sync_billing_refund follow_total
  follow_refunds user_id p none = follow_total p
  follow_refunds user_id p (some r) =
      if is_done g r.status
      then follow_total p
      else (do _ ← sync_billing_refund g user_id p.id; pure tt)

  unfoldable pub sync_provider : String → PaymentRow → Action Ledger (Unit {0})
  unfolding request settle_each follow_refunds
  sync_provider user_id p = do
    listed ← read_result (request g (g.order_payments p.gateway_order_id))
    items ← read_items "Invalid provider payment history." listed
    let leading = leading_payment items
    settle_each (to_list leading ++ extra_charges leading items)
    q ← gets (payment_now p)
    r ← gets (refund_for g p.id)
    follow_refunds user_id q r

  unfoldable pub sync_billing_payment : String → String → Action Ledger SyncAnswer
  unfolding own_payment sync_provider
  sync_billing_payment user_id payment_id = do
    found ← gets (λ (s : Ledger). find (is_payment payment_id) s.payments)
    p ← own_payment g user_id found
    if str_eq p.gateway "razorpay" then sync_provider user_id p else pure tt
    q ← gets (payment_now p)
    r ← gets (refund_for g payment_id)
    pure (shown_payment q r)

  unfoldable pub own_checkout : String → Option Checkout → Action Ledger Checkout
  own_checkout user_id none = throw (app_error "Checkout not found." 404)
  own_checkout user_id (some c) =
      if str_eq c.user_id user_id then pure c else throw (app_error "Checkout not found." 404)

  abbrev pub captured_with : PaymentRow → Checkout → Checkout
  captured_with p c = record c {
    payment_id = some p.id;
    status = of_payment PaymentStatus.captured;
  }

  -- a checkout that costs nothing is paid and granted
  unfoldable pub settle_free : Checkout → Action Ledger PaymentRow
  unfolding locked upsert_payment activate update_checkouts
  settle_free c = locked (do
    let order_id = concat ("free_" ∷ c.id ∷ [])
    old ← gets (λ (s : Ledger). find (is_order_of order_id) s.payments)
    p ← upsert_payment new_id (payment_of c order_id) old
    q ← activate to_utc from_utc new_id p
    update_checkouts (is_checkout c.id) (captured_with p)
    pure q)

  abbrev pub released : Checkout → Checkout
  released c = record c { status = of_payment PaymentStatus.failed }

  unfoldable pub release_fresh : Option Checkout → Action Ledger (Option String)
  unfolding update_checkouts
  release_fresh none = pure none
  release_fresh (some fresh) = do
    if has_payment fresh then pure tt else update_checkouts (is_checkout fresh.id) released
    pure fresh.payment_id

  unfoldable pub answer_release : String → Checkout → Option String → Action Ledger SyncAnswer
  unfolding sync_billing_payment
  answer_release user_id c none = pure (not_created c.id)
  answer_release user_id c (some payment_id) = sync_billing_payment user_id payment_id

  -- No order exists a minute after the attempt: nothing was charged.
  unfoldable pub release : String → Checkout → Action Ledger SyncAnswer
  unfolding locked release_fresh answer_release
  release user_id c = do
    raced ←
        locked (do
          fresh ← gets (λ (s : Ledger). find (is_checkout c.id) s.checkouts)
          release_fresh fresh)
    answer_release user_id c raced

  abbrev no_order : Error
  no_order =
      provider_error
        "No provider order has been confirmed yet. Try checking again shortly or contact billing support."
        "PAYMENT_UNCERTAIN"

  abbrev many_orders : Error
  many_orders =
      provider_error
        "Multiple provider orders need a billing review. Contact support with your checkout reference."
        "PAYMENT_UNCERTAIN"

  unfoldable pub sync_orders : String → Checkout → List Order → Action Ledger SyncAnswer
  unfolding release recover_payment sync_billing_payment
  sync_orders user_id c [] = do
    now ← gets (λ (s : Ledger). s.now)
    if ltb (c.created_at + 60000) now then release user_id c else throw no_order
  sync_orders user_id c (order ∷ []) = do
    p ← recover_payment to_utc from_utc new_id g order.id
    sync_billing_payment user_id p.id
  sync_orders user_id c (order ∷ other ∷ orders) = throw many_orders

  unfoldable pub sync_open : String → Checkout → Action Ledger SyncAnswer
  unfolding settle_free invalidate_subscription_cache request sync_orders
  sync_open user_id c =
      if c.amount == 0
      then (do
        p ← settle_free c
        invalidate_subscription_cache user_id
        pure (shown_payment p none))
      else (do
        listed ← read_result (request g (g.orders_by_receipt c.id))
        items ← read_items "The provider checkout lookup is unavailable." listed
        sync_orders user_id c (select (is_order_for c.id) items))

  unfoldable pub sync_attempt : String → Checkout → Option String → Action Ledger SyncAnswer
  unfolding sync_billing_payment sync_open
  sync_attempt user_id c (some payment_id) = sync_billing_payment user_id payment_id
  sync_attempt user_id c none = sync_open user_id c

  unfoldable pub sync_billing_checkout : String → String → Action Ledger SyncAnswer
  unfolding own_checkout sync_attempt
  sync_billing_checkout user_id checkout_id = do
    found ← gets (λ (s : Ledger). find (is_checkout checkout_id) s.checkouts)
    c ← own_checkout user_id found
    sync_attempt user_id c c.payment_id
