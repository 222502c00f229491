-- ===== src/Purchases/Settled.antt =====
-- Payments that are settled already, and settlements that fail.
use url_shortner_system_desi.Common.{
  bind_result, ℕ, String, true, ◌||◌, none, some, Action, ◌≡◌, refl, sym, ap, ◌∙◌, arith, Result,
  ok, err, Error, Keeps, Keeps-then, Keeps-pure, Keeps-if, pure, find, ◌>>◌, bind-ok, Bool-cases,
  inl, inr, is_empty,
}
use url_shortner_system_desi.Billing.Period.{UtcDate}
use url_shortner_system_desi.Purchases.Gateway.{Gateway, Entity}
use url_shortner_system_desi.Purchases.Kept.{rolled_back-kept}
use url_shortner_system_desi.Purchases.State.{
  rolled_back, locked, is_payment, update_payment, invalidate_subscription_cache, PaymentRow,
  Ledger,
}
use url_shortner_system_desi.Purchases.Settlement.{
  recover_unknown, settle_payment, same_terms, charged_twice, settle_original, settle_fresh,
  recover_payment, is_settled_status, settle_row,
}
use url_shortner_system_desi.Purchases.Attempts.{is_order_of}

-- nothing that a purchase grants has changed
pub record SameGrants (s t : Ledger) : Type 0 where
  pub subscriptions : t.subscriptions ≡ s.subscriptions
  pub redemptions : t.redemptions ≡ s.redemptions
  pub coupons : t.coupons ≡ s.coupons
  pub checkouts : t.checkouts ≡ s.checkouts
  pub refunds : t.refunds ≡ s.refunds

module _ (s : Ledger) where
  SameGrants-start : SameGrants s s
  SameGrants-start = record {
    subscriptions = refl;
    redemptions = refl;
    coupons = refl;
    checkouts = refl;
    refunds = refl;
  }

  update_payment-SameGrants :
      (f : PaymentRow → PaymentRow) (p : PaymentRow) → Keeps (SameGrants s) (update_payment f p)
  unfolding update_payment
  update_payment-SameGrants f p = record {
    at = λ w k. record {
      subscriptions = k.subscriptions;
      redemptions = k.redemptions;
      coupons = k.coupons;
      checkouts = k.checkouts;
      refunds = k.refunds;
    };
  }

  invalidate-SameGrants :
      (user_id : String) → Keeps (SameGrants s) (invalidate_subscription_cache user_id)
  unfolding invalidate_subscription_cache
  invalidate-SameGrants user_id = record {
    at = λ w k. record {
      subscriptions = k.subscriptions;
      redemptions = k.redemptions;
      coupons = k.coupons;
      checkouts = k.checkouts;
      refunds = k.refunds;
    };
  }

module _ (to_utc : ℕ → UtcDate) (from_utc : UtcDate → ℕ) (new_id : ℕ → String) (g : Gateway)
    (e : Entity) (s : Ledger) where
  settle_row-SameGrants :
      (p : PaymentRow)
      → is_settled_status p.status ≡ true
      → Keeps (SameGrants s) (settle_row to_utc from_utc new_id g e p)
  unfolding settle_row
  settle_row-SameGrants p settled =
      rw settled (Keeps-if _ (update_payment-SameGrants s (charged_twice e.id) p) Keeps-pure)

  -- the row of the order, and what a transaction reads of it
  module _ (p : PaymentRow) (known : find (is_order_of e.order_id) s.payments ≡ some p)
      (row : find (is_payment p.id) s.payments ≡ some p) where
    recover_payment-known : recover_payment to_utc from_utc new_id g e.order_id s ≡ (ok p, s)
    unfolding recover_payment
    recover_payment-known =
        ap
          (λ o.
            (elim o as (λ _. Action Ledger PaymentRow) [
              | none ↦ recover_unknown to_utc from_utc new_id g e.order_id
              | some q ↦ pure q
            ])
              s)
          known

    settle_fresh-known :
        settle_fresh to_utc from_utc new_id g e p s ≡ settle_row to_utc from_utc new_id g e p s
    unfolding settle_fresh
    settle_fresh-known =
        ap
          (λ o.
            (elim o as (λ _. Action Ledger PaymentRow) [
              | none ↦ pure p
              | some q ↦ settle_row to_utc from_utc new_id g e q
            ])
              s)
          row

    -- the transaction leaves the grants alone, whether it is taken back or not
    locked-SameGrants :
        is_settled_status p.status ≡ true
        → SameGrants s (locked (settle_fresh to_utc from_utc new_id g e p) s).1
    unfolding locked
    locked-SameGrants settled =
        rolled_back-kept (SameGrants s) s (settle_fresh to_utc from_utc new_id g e p s)
          (SameGrants-start s)
          (rw settle_fresh-known ((settle_row-SameGrants p settled).at s (SameGrants-start s)))

    original-SameGrants :
        is_settled_status p.status ≡ true
        → SameGrants s (settle_original to_utc from_utc new_id g e p s).1
    unfolding settle_original
    original-SameGrants settled = elim (Bool-cases (same_terms to_utc from_utc new_id g e p)) [
      | inl same ↦ rw same (
          bind_result {f = λ q. do invalidate_subscription_cache p.user_id; pure q}
            (locked (settle_fresh to_utc from_utc new_id g e p) s).0
            (locked (settle_fresh to_utc from_utc new_id g e p) s).1
            (λ q. Keeps-then (invalidate-SameGrants s p.user_id) Keeps-pure)
            (locked-SameGrants settled))
      | inr other ↦ rw other (SameGrants-start s)
    ]

    -- A settlement of a payment that is captured or refunded already, whatever the provider's payment
    -- says, and whether it succeeds or not, changes no subscription, coupon, redemption, checkout or
    -- refund: a payment that is reported again grants nothing more.
    pub settle_payment-SameGrants :
        is_settled_status p.status ≡ true
        → SameGrants s (settle_payment to_utc from_utc new_id g e s).1
    unfolding settle_payment
    settle_payment-SameGrants settled = elim (Bool-cases (is_empty e.order_id || is_empty e.id)) [
      | inl empty ↦ rw empty (SameGrants-start s)
      | inr full ↦ rw full (
          rw
            (bind-ok (recover_payment to_utc from_utc new_id g e.order_id)
              (settle_original to_utc from_utc new_id g e) recover_payment-known)
            (original-SameGrants settled))
    ]

    -- what follows the transaction does not throw
    after_locked :
        (o : Result PaymentRow × Ledger) (x : Error) (t : Ledger)
        → elim (rolled_back s o).0 as (λ _. Result PaymentRow × Ledger) [
          | ok q ↦ (do invalidate_subscription_cache p.user_id; pure q) (rolled_back s o).1
          | err y ↦ (err y, (rolled_back s o).1)
        ]
          ≡ (err x, t)
        → t ≡ s
    unfolding invalidate_subscription_cache
    after_locked (ok q, u) x t h = ground arith
    after_locked (err y, u) x t h = sym (ap (λ o. o.1) h)

    original-err :
        (x : Error) (t : Ledger)
        → settle_original to_utc from_utc new_id g e p s ≡ (err x, t)
        → t ≡ s
    unfolding settle_original locked
    original-err x t h = elim (Bool-cases (same_terms to_utc from_utc new_id g e p)) [
      | inl same ↦ after_locked (settle_fresh to_utc from_utc new_id g e p s) x t (rw same at h)
      | inr other ↦ sym (ap (λ o. o.1) (rw other at h))
    ]

    -- A settlement of a payment whose order is known that throws leaves every table and the cache as
    -- they were.
    settle_payment-err :
        (x : Error) (t : Ledger) → settle_payment to_utc from_utc new_id g e s ≡ (err x, t) → t ≡ s
    unfolding settle_payment
    settle_payment-err x t h = elim (Bool-cases (is_empty e.order_id || is_empty e.id)) [
      | inl empty ↦ sym (ap (λ o. o.1) (rw empty at h))
      | inr full ↦ original-err x t (
          sym (
            bind-ok (recover_payment to_utc from_utc new_id g e.order_id)
              (settle_original to_utc from_utc new_id g e) recover_payment-known)
          ∙ rw full at h)
    ]
