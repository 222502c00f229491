-- ===== src/Purchases/Kept.antt =====
-- What each step of a purchase does to the active subscriptions.
use url_shortner_system_desi.Common.{
  ◌>>=◌, gets, ℕ, String, Bool, true, false, Option, none, some, List, Action, ◌≡◌, refl, arith,
  Result, ok, err, Error, Keeps, keeps_rules, Keeps-bind, Keeps-then, Keeps-pure, Keeps-if, pure,
  throw, if◌then◌else◌,
}
use url_shortner_system_desi.State.{Subscription}
use url_shortner_system_desi.Billing.Period.{UtcDate}
use url_shortner_system_desi.Purchases.State.{
  Ledger, Checkout, PaymentRow, locked, invalidate_subscription_cache, update_payment,
  update_checkouts,
}
use url_shortner_system_desi.Purchases.Coupons.{redeem}
use url_shortner_system_desi.Purchases.Activation.{fulfil, activate_new, activate}
use url_shortner_system_desi.Purchases.Settlement.{read_result}
use url_shortner_system_desi.Purchases.OneActive.{
  OneActive-same, OneActive, Keeps-modify, replace_subscription-OneActive,
}
use url_shortner_system_desi.Purchases.{save_payment, upsert_payment, rolled_back}

-- A transaction that throws changes nothing.
pub rolled_back-kept :
    {A : Type 0} (P : Ledger → Type 0) (s : Ledger) (o : Result A × Ledger)
    → P s
    → P o.1
    → P (rolled_back s o).1
rolled_back-kept P s (ok a, t) p q = q
rolled_back-kept P s (err e, t) p q = p

module _ {P : Ledger → Type 0} where
  pub Keeps-locked : {A : Type 0} {m : Action Ledger A} → Keeps P m → Keeps P (locked m)
  unfolding locked
  Keeps-locked {A} {m} k = record { at = λ s p. rolled_back-kept P s (m s) p (k.at s p) }

  pub Keeps-read : {A : Type 0} (r : Result A) → Keeps P (read_result r)
  Keeps-read (ok a) = search keeps_rules
  Keeps-read (err e) = search keeps_rules

  pub Keeps-case :
      {A B : Type 0} (o : Option B) {n : Action Ledger A} {f : B → Action Ledger A}
      → Keeps P n
      → ((b : B) → Keeps P (f b))
      → Keeps P (elim o [ none ↦ n | some b ↦ f b ])
  Keeps-case none h k = h
  Keeps-case (some b) h k = k b

  -- a row that is read again
  pub Keeps-found :
      {A B : Type 0} (f : Ledger → Option B) (n : Action Ledger A) (k : B → Action Ledger A)
      → Keeps P n
      → ((b : B) → Keeps P (k b))
      → Keeps P (do o ← gets f; elim o [ none ↦ n | some b ↦ k b ])
  Keeps-found f n k h l = record { at = λ w p. (Keeps-case (f w) h l).at w p }

  pub ruleset ledger_rules = (keeps_rules, Keeps-locked, Keeps-read, Keeps-case)

module _ (drawn_at : String → ℕ) where
  pub update_payment-OneActive :
      (f : PaymentRow → PaymentRow) (p : PaymentRow)
      → Keeps (OneActive drawn_at) (update_payment f p)
  unfolding update_payment
  update_payment-OneActive f p =
      Keeps-then (Keeps-modify drawn_at _ (λ w. refl) (λ w. omega arith)) Keeps-pure

  pub update_checkouts-OneActive :
      (p : Checkout → Bool) (f : Checkout → Checkout)
      → Keeps (OneActive drawn_at) (update_checkouts p f)
  unfolding update_checkouts
  update_checkouts-OneActive p f = Keeps-modify drawn_at _ (λ w. refl) (λ w. omega arith)

  pub invalidate-OneActive :
      (user_id : String) → Keeps (OneActive drawn_at) (invalidate_subscription_cache user_id)
  unfolding invalidate_subscription_cache
  invalidate-OneActive user_id = Keeps-modify drawn_at _ (λ w. refl) (λ w. omega arith)

  pub redeem-OneActive :
      (p : PaymentRow) (id : Option String) → Keeps (OneActive drawn_at) (redeem p id)
  unfolding redeem
  redeem-OneActive p none = search keeps_rules
  redeem-OneActive p (some id) = Keeps-modify drawn_at _ (λ w. ground arith) (λ w. ground arith)

  pub ruleset table_rules = (
    ledger_rules, update_payment-OneActive, update_checkouts-OneActive, invalidate-OneActive,
    redeem-OneActive,
  )

  module _ (new_id : ℕ → String) (fresh : (n : ℕ) → drawn_at (new_id n) ≡ n) (to_utc : ℕ → UtcDate)
      (from_utc : UtcDate → ℕ) where
    fulfil-OneActive :
        (p : PaymentRow) (previous : Option Subscription)
        → Keeps (OneActive drawn_at) (fulfil to_utc from_utc new_id p previous)
    unfolding fulfil
    fulfil-OneActive p previous =
        search (table_rules, replace_subscription-OneActive drawn_at new_id fresh to_utc from_utc)
          depth 12

    activate_new-OneActive :
        (p : PaymentRow) → Keeps (OneActive drawn_at) (activate_new to_utc from_utc new_id p)
    unfolding activate_new
    activate_new-OneActive p = search (table_rules, fulfil-OneActive) depth 12

    pub activate-OneActive :
        (p : PaymentRow) → Keeps (OneActive drawn_at) (activate to_utc from_utc new_id p)
    unfolding activate
    activate-OneActive p = Keeps-case p.subscription_id (activate_new-OneActive p) (λ b. Keeps-pure)

    pub upsert_payment-OneActive :
        (make : ℕ → String → PaymentRow) (o : Option PaymentRow)
        → Keeps (OneActive drawn_at) (upsert_payment new_id make o)
    unfolding upsert_payment
    upsert_payment-OneActive make (some p) = record { at = λ w o. o }
    upsert_payment-OneActive make none = record {
      at = λ w o. OneActive-same drawn_at w _ refl (omega arith) o;
    }

    pub save_payment-OneActive :
        (make : ℕ → String → PaymentRow) (c : Checkout) (order_id : String)
        → Keeps (OneActive drawn_at) (save_payment new_id make c order_id)
    unfolding save_payment
    save_payment-OneActive make c order_id = search (table_rules, upsert_payment-OneActive) depth 12
