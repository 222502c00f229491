-- ===== src/Purchases/KeptSync.antt =====
-- What refund requests, synchronizations and webhooks do to the active subscriptions.
use url_shortner_system_desi.Common.{
  ℕ, String, Bool, Option, none, some, List, [], ◌∷◌, ◌≡◌, refl, arith, Keeps, Keeps-bind,
}
use url_shortner_system_desi.Billing.Period.{UtcDate}
use url_shortner_system_desi.Purchases.Gateway.{Order, Gateway, Entity}
use url_shortner_system_desi.Purchases.Kept.{
  activate-OneActive, upsert_payment-OneActive, table_rules,
}
use url_shortner_system_desi.Purchases.KeptOrders.{
  recover_payment-OneActive, settle_payment-OneActive, row_rules,
}
use url_shortner_system_desi.Purchases.KeptRefunds.{
  sync_refund-OneActive, reconcile-OneActive, submit_refund-OneActive, own_payment-OneActive,
  refund_rules,
}
use url_shortner_system_desi.Purchases.Sync.{
  read_items, own_checkout, follow_refunds, settle_each, sync_orders, release, release_fresh,
  sync_attempt, sync_open, sync_billing_payment, answer_release, follow_total,
  sync_billing_checkout, settle_free, sync_provider,
}
use url_shortner_system_desi.Purchases.Requests.{
  RefundInput, create_refund_row, refund_found, request_administrative_refund,
  request_billing_refund, reserve_refund,
}
use url_shortner_system_desi.Purchases.OneActive.{OneActive-same, OneActive}
use url_shortner_system_desi.Purchases.State.{RefundRow, PaymentRow, Checkout}

module _ (drawn_at : String → ℕ) (new_id : ℕ → String) (g : Gateway) where
  create_refund_row-OneActive :
      (user_id : String) (i : RefundInput) (p : PaymentRow)
      → Keeps (OneActive drawn_at) (create_refund_row new_id g user_id i p)
  unfolding create_refund_row
  create_refund_row-OneActive user_id i p = record {
    at = λ w k. OneActive-same drawn_at w _ refl (omega arith) k;
  }

  reserve_refund-OneActive :
      (user_id : String) (i : RefundInput) (b : Bool) (p : PaymentRow) (o : Option RefundRow)
      → Keeps (OneActive drawn_at) (reserve_refund new_id g user_id i b p o)
  unfolding reserve_refund
  reserve_refund-OneActive user_id i b p none =
      search (refund_rules, create_refund_row-OneActive) depth 12
  reserve_refund-OneActive user_id i b p (some r) = search refund_rules

  pub request_refund-OneActive :
      (user_id : String) (i : RefundInput) (b : Bool)
      → Keeps (OneActive drawn_at) (request_billing_refund new_id g user_id i b)
  unfolding request_billing_refund
  request_refund-OneActive user_id i b =
      search
        (refund_rules, own_payment-OneActive, reserve_refund-OneActive, submit_refund-OneActive)
        depth 16

  refund_found-OneActive :
      (to_minor : String → String → Option ℕ) (o : Option PaymentRow) (amount : Option String)
      (reason : String)
      → Keeps (OneActive drawn_at) (refund_found new_id g to_minor o amount reason)
  unfolding refund_found
  refund_found-OneActive to_minor none amount reason = search refund_rules
  refund_found-OneActive to_minor (some p) amount reason =
      search (refund_rules, request_refund-OneActive) depth 12

  pub administrative-OneActive :
      (to_minor : String → String → Option ℕ) (payment_id : String) (amount : Option String)
      (reason : String)
      → Keeps
          (OneActive drawn_at)
          (request_administrative_refund new_id g to_minor payment_id amount reason)
  unfolding request_administrative_refund
  administrative-OneActive to_minor payment_id amount reason =
      search (refund_rules, refund_found-OneActive) depth 10

module _ (drawn_at : String → ℕ) (new_id : ℕ → String) (fresh : (n : ℕ) → drawn_at (new_id n) ≡ n)
    (to_utc : ℕ → UtcDate) (from_utc : UtcDate → ℕ) (g : Gateway) where
  settle_each-OneActive :
      (es : List Entity) → Keeps (OneActive drawn_at) (settle_each to_utc from_utc new_id g es)
  unfolding settle_each
  settle_each-OneActive [] = search row_rules
  settle_each-OneActive (e ∷ es) =
      Keeps-bind (settle_payment-OneActive drawn_at new_id fresh to_utc from_utc g e)
        (λ p. settle_each-OneActive es)

  follow_total-OneActive :
      (p : PaymentRow) → Keeps (OneActive drawn_at) (follow_total to_utc from_utc new_id g p)
  unfolding follow_total
  follow_total-OneActive p = search (refund_rules, reconcile-OneActive) depth 10

  follow_refunds-OneActive :
      (user_id : String) (p : PaymentRow) (o : Option RefundRow)
      → Keeps (OneActive drawn_at) (follow_refunds to_utc from_utc new_id g user_id p o)
  unfolding follow_refunds
  follow_refunds-OneActive user_id p none = follow_total-OneActive p
  follow_refunds-OneActive user_id p (some r) =
      search (refund_rules, follow_total-OneActive, sync_refund-OneActive) depth 10

  read_items-OneActive :
      {A : Type 0} (message : String) (o : Option (List A))
      → Keeps (OneActive drawn_at) (read_items message o)
  read_items-OneActive message none = search refund_rules
  read_items-OneActive message (some items) = search refund_rules

  sync_provider-OneActive :
      (user_id : String) (p : PaymentRow)
      → Keeps (OneActive drawn_at) (sync_provider to_utc from_utc new_id g user_id p)
  unfolding sync_provider
  sync_provider-OneActive user_id p =
      search (refund_rules, read_items-OneActive, settle_each-OneActive, follow_refunds-OneActive)
        depth 16

  pub sync_payment-OneActive :
      (user_id payment_id : String)
      → Keeps
          (OneActive drawn_at)
          (sync_billing_payment to_utc from_utc new_id g user_id payment_id)
  unfolding sync_billing_payment
  sync_payment-OneActive user_id payment_id =
      search (refund_rules, own_payment-OneActive, sync_provider-OneActive) depth 14

  own_checkout-OneActive :
      (user_id : String) (o : Option Checkout)
      → Keeps (OneActive drawn_at) (own_checkout to_utc from_utc new_id g user_id o)
  unfolding own_checkout
  own_checkout-OneActive user_id none = search refund_rules
  own_checkout-OneActive user_id (some c) = search refund_rules

  settle_free-OneActive :
      (c : Checkout) → Keeps (OneActive drawn_at) (settle_free to_utc from_utc new_id g c)
  unfolding settle_free
  settle_free-OneActive c =
      search
        (
          table_rules,
          upsert_payment-OneActive drawn_at new_id fresh to_utc from_utc,
          activate-OneActive drawn_at new_id fresh to_utc from_utc,
        )
        depth 16

  release_fresh-OneActive :
      (o : Option Checkout) → Keeps (OneActive drawn_at) (release_fresh to_utc from_utc new_id g o)
  unfolding release_fresh
  release_fresh-OneActive none = search table_rules
  release_fresh-OneActive (some c) = search table_rules depth 10

  answer_release-OneActive :
      (user_id : String) (c : Checkout) (o : Option String)
      → Keeps (OneActive drawn_at) (answer_release to_utc from_utc new_id g user_id c o)
  unfolding answer_release
  answer_release-OneActive user_id c none = search table_rules
  answer_release-OneActive user_id c (some id) = sync_payment-OneActive user_id id

  release-OneActive :
      (user_id : String) (c : Checkout)
      → Keeps (OneActive drawn_at) (release to_utc from_utc new_id g user_id c)
  unfolding release
  release-OneActive user_id c =
      search (table_rules, release_fresh-OneActive, answer_release-OneActive) depth 12

  sync_orders-OneActive :
      (user_id : String) (c : Checkout) (orders : List Order)
      → Keeps (OneActive drawn_at) (sync_orders to_utc from_utc new_id g user_id c orders)
  unfolding sync_orders
  sync_orders-OneActive user_id c [] = search (table_rules, release-OneActive) depth 10
  sync_orders-OneActive user_id c (order ∷ []) =
      Keeps-bind (recover_payment-OneActive drawn_at new_id fresh to_utc from_utc g order.id)
        (λ p. sync_payment-OneActive user_id p.id)
  sync_orders-OneActive user_id c (order ∷ other ∷ orders) = search table_rules

  sync_open-OneActive :
      (user_id : String) (c : Checkout)
      → Keeps (OneActive drawn_at) (sync_open to_utc from_utc new_id g user_id c)
  unfolding sync_open
  sync_open-OneActive user_id c =
      search (table_rules, settle_free-OneActive, sync_orders-OneActive, read_items-OneActive) depth
        14

  sync_attempt-OneActive :
      (user_id : String) (c : Checkout) (o : Option String)
      → Keeps (OneActive drawn_at) (sync_attempt to_utc from_utc new_id g user_id c o)
  unfolding sync_attempt
  sync_attempt-OneActive user_id c none = sync_open-OneActive user_id c
  sync_attempt-OneActive user_id c (some id) = sync_payment-OneActive user_id id

  pub sync_checkout-OneActive :
      (user_id checkout_id : String)
      → Keeps
          (OneActive drawn_at)
          (sync_billing_checkout to_utc from_utc new_id g user_id checkout_id)
  unfolding sync_billing_checkout
  sync_checkout-OneActive user_id checkout_id =
      search (table_rules, own_checkout-OneActive, sync_attempt-OneActive) depth 12
