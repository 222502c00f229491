-- ===== src/Purchases/Tests.antt =====
-- The statements about purchases at concrete inputs.
use url_shortner_system_desi.Common.{
  trim, false, none, some, List, [], ◌∷◌, ok, arith, ◌≡◌, refl, ap, find, get_elem?, Result,
  count_chars,
}
use url_shortner_system_desi.State.{Subscription, active, canceled, monthly}
use url_shortner_system_desi.Billing.Policy.{PaymentStatus}
use url_shortner_system_desi.Purchases.State.{
  is_checkout, of_payment, Ledger, PaymentRow, Checkout, creating,
}
use url_shortner_system_desi.Purchases.Gateway.{
  fetch_processed_refunds, Gateway, RefundEntity, request,
}
use url_shortner_system_desi.Purchases.OneActive.{OneActive}
use url_shortner_system_desi.Purchases.Machine.{verify, Moment, after_calls, OneActive-after_calls}
use url_shortner_system_desi.Purchases.Settlement.{settle_payment, verify_billing_payment}
use url_shortner_system_desi.Purchases.Paging.{fetch_processed_refunds_lem, served}
use url_shortner_system_desi.Purchases.Attempts.{is_open_checkout, CheckoutInput}
use url_shortner_system_desi.Purchases.Checkout.{answer_of, create_billing_order}
use url_shortner_system_desi.Purchases.Verified.{verify_billing_payment-IsVerified, IsVerified}
use url_shortner_system_desi.Purchases.Sync.{not_created, sync_billing_checkout}
use url_shortner_system_desi.Purchases.Settled.{settle_payment-SameGrants, SameGrants}
use url_shortner_system_desi.Purchases.Totals.{reconcile_refund_balance-IsBounded, IsBounded}
use url_shortner_system_desi.Purchases.Balance.{reconcile_refund_balance}
use url_shortner_system_desi.Purchases.Repeated.{create_billing_order-repeated}
use url_shortner_system_desi.Purchases.Released.{sync_billing_checkout-releases}
use url_shortner_system_desi.Purchases.Samples.{
  letters, count_chars-letters, to_utc, from_utc, paid, provider, old_plan, metadata, ordered,
  attempt, ledger, signature,
}

abbrev paying : Moment
paying = record {
  time = 2000;
  provider = provider;
  call = verify "ann" "order_1" "pay_1" signature;
}

abbrev after_paying : Ledger
after_paying =
    after_calls to_utc from_utc letters (λ s. s) (λ a b. false) (λ s. signature) (λ a c. none)
      (paying ∷ []) ledger

abbrev pro_plan : Subscription
pro_plan = record {
  id = "rrrrrrr";
  user_id = "ann";
  plan_id = "pro";
  billing_cycle = monthly;
  status = active;
  started_at = 2000;
  current_period_end = some 2030;
  cancel_at_period_end = false;
  canceled_at = none;
  external_subscription_id = some "order_1";
}

pays :
    after_paying.subscriptions
    ≡ record old_plan { status = canceled; canceled_at = some 2000 } ∷ pro_plan ∷ []
unfolding after_calls letters
pays = refl

ledger-OneActive : OneActive count_chars ledger
ledger-OneActive = record {
  owner = λ id. "ann";
  only = λ user_id. "free1";
  fits = ((refl, omega arith, λ on. refl), tt);
}

OneActive-after_calls_example : (pro_plan.id ≡ pro_plan.id)
OneActive-after_calls_example =
    OneActive-after_calls to_utc from_utc letters (λ s. s) (λ a b. false) (λ s. signature)
      (λ a c. none) count_chars count_chars-letters (paying ∷ []) ledger 1 1 pro_plan pro_plan
      ledger-OneActive (ap (λ ss. get_elem? ss 1) pays) (ap (λ ss. get_elem? ss 1) pays) refl refl
      refl

-- a refund that is processed, and the page that lists it
abbrev refund_entry : RefundEntity
refund_entry = record { id = "rf_1"; payment_id = "pay_1"; amount = 300; status = "processed" }

abbrev pending_entry : RefundEntity
pending_entry = record refund_entry { id = "rf_2"; status = "pending" }

abbrev history : List RefundEntity
history = refund_entry ∷ pending_entry ∷ []

abbrev refunding : Gateway
refunding = record provider { refund_page = λ id skip. served history skip }

fetch_processed_refunds_lem_example :
    fetch_processed_refunds refunding "pay_1" ≡ ok (refund_entry ∷ [])
fetch_processed_refunds_lem_example =
    fetch_processed_refunds_lem refunding "pay_1" history refl (λ skip. refl)

abbrev captured_row : PaymentRow
captured_row = record ordered { status = PaymentStatus.captured; gateway_payment_id = some "pay_0" }

abbrev settled_ledger : Ledger
settled_ledger = record ledger { payments = captured_row ∷ [] }

-- a second charge for an order that is paid
settle_payment-SameGrants_example :
    SameGrants settled_ledger
      (settle_payment to_utc from_utc letters provider paid settled_ledger).1
settle_payment-SameGrants_example =
    settle_payment-SameGrants to_utc from_utc letters provider paid settled_ledger captured_row refl
      refl refl

reconcile_refund_balance-IsBounded_example :
    IsBounded "p1" 900 100
      (reconcile_refund_balance refunding
        (record captured_row { refunded_amount = 100 })
        none
        (record ledger { payments = record captured_row { refunded_amount = 100 } ∷ [] })).1
reconcile_refund_balance-IsBounded_example =
    reconcile_refund_balance-IsBounded refunding (record captured_row { refunded_amount = 100 }) 100
      none (record ledger { payments = record captured_row { refunded_amount = 100 } ∷ [] })
      (record {
        row = record captured_row { refunded_amount = 100 };
        found = refl;
        same_amount = refl;
        not_lowered = omega arith;
        not_above = omega arith;
      })

abbrev verified : Result PaymentRow × Ledger
verified =
    verify_billing_payment to_utc from_utc letters (λ s. signature) provider "ann" "order_1" "pay_1"
      signature ledger

abbrev paid_row : PaymentRow
paid_row = record ordered {
  subscription_id = some "rrrrrrr";
  status = PaymentStatus.captured;
  gateway_payment_id = some "pay_1";
  metadata = record metadata {
    paid_at = some 900;
    fulfillment_status = some "ACTIVE";
    previous_subscription_id = some "free1";
  };
}

verifies : verified ≡ (ok paid_row, verified.1)
unfolding verify_billing_payment letters
verifies = refl

verify_billing_payment-IsVerified_example :
    IsVerified to_utc from_utc letters
      (λ s. signature)
      provider
      "ann"
      "order_1"
      "pay_1"
      signature
      ledger
      verified.1
      paid_row
verify_billing_payment-IsVerified_example =
    verify_billing_payment-IsVerified to_utc from_utc letters (λ s. signature) provider "ann"
      "order_1" "pay_1" signature ledger verified.1 paid_row verifies

abbrev wanted : CheckoutInput
wanted = record {
  plan_key = "pro";
  billing_cycle = some monthly;
  coupon_code = "";
  request_key = "key-0123456789abcdef";
  expected_purchase_id = none;
}

create_billing_order-repeated_example :
    create_billing_order to_utc from_utc letters
      (λ s. s)
      (λ a b. false)
      provider
      "ann"
      wanted
      ledger
    ≡ (ok (answer_of attempt ordered), ledger)
unfolding trim
create_billing_order-repeated_example =
    create_billing_order-repeated to_utc from_utc letters (λ s. s) (λ a b. false) provider "ann"
      wanted monthly attempt ledger refl refl refl refl

abbrev lost : Checkout
lost = record attempt { status = creating; payment_id = none }

abbrev later : Ledger
later = record ledger { now = 90000; checkouts = lost ∷ [] }

sync_billing_checkout-releases_example :
    (sync_billing_checkout to_utc from_utc letters provider "ann" "c1" later ≡ (
      ok (not_created "c1"),
      record later { checkouts = record lost { status = of_payment PaymentStatus.failed } ∷ [] },
    ))
    × (find (is_checkout "c1") (record lost { status = of_payment PaymentStatus.failed } ∷ [])
        ≡ some (record lost { status = of_payment PaymentStatus.failed }))
    × (is_open_checkout (record lost { status = of_payment PaymentStatus.failed }) ≡ false)
unfolding request
sync_billing_checkout-releases_example =
    sync_billing_checkout-releases to_utc from_utc letters provider "ann" "c1" lost later [] refl
      refl refl refl refl refl refl
