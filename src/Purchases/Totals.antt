-- ===== src/Purchases/Totals.antt =====
-- The refunded amount of a payment.
use url_shortner_system_desi.Common.{
  find-update_row, find_sound, eq_iff, modify, ℕ, ◌≤◌, max, String, Bool, ◌||◌, Option, none, some,
  Action, ◌≡◌, refl, sym, ap, ◌∙◌, arith, Keeps, keeps_rules, Keeps-then, Keeps-pure, Keeps-if,
  pure, find, ◌>>◌, Bool-cases, inl, inr, throw_if, app_error, update_where, ltb, ◌==◌,
}
use url_shortner_system_desi.Purchases.Gateway.{Gateway}
use url_shortner_system_desi.Purchases.Kept.{Keeps-locked, ledger_rules}
use url_shortner_system_desi.Purchases.Balance.{
  refunded_by, reconcile_refund_balance, apply_refunds, apply_total, withdraw, withdraw_paid,
  revive, bring_back,
}
use url_shortner_system_desi.Purchases.State.{
  locked, update_payment, is_payment, PaymentRow, invalidate_subscription_cache, Ledger,
}
use url_shortner_system_desi.State.{Subscription}
use url_shortner_system_desi.Billing.Policy.{max_safe}

some-eq : {A : Type 0} (a b : A) → some a ≡ some b → a ≡ b
some-eq a b h = ground arith

le_max : (low n a b : ℕ) → a ≡ b → low ≤ a → low ≤ max n b
le_max low n a b same h = omega arith

max_le : (n a b most : ℕ) → a ≡ b → n ≤ most → a ≤ most → max n b ≤ most
max_le n a b most same h k = omega arith

module _ (id : String) (amount low : ℕ) where
  -- The row of the payment has its amount, of which no less is refunded than before, and no more than
  -- all of it.
  pub record IsBounded (w : Ledger) : Type 0 where
    pub row : PaymentRow
    pub found : find (is_payment id) w.payments ≡ some row
    pub same_amount : row.amount ≡ amount
    pub not_lowered : low ≤ row.refunded_amount
    pub not_above : row.refunded_amount ≤ amount

  IsBounded-same : (w v : Ledger) → v.payments ≡ w.payments → IsBounded w → IsBounded v
  IsBounded-same w v same b = record {
    row = b.row;
    found = ap (find (is_payment id)) same ∙ b.found;
    same_amount = b.same_amount;
    not_lowered = b.not_lowered;
    not_above = b.not_above;
  }

  quiet-IsBounded :
      (f : Ledger → Ledger)
      → ((w : Ledger) → (f w).payments ≡ w.payments)
      → Keeps IsBounded (modify f)
  quiet-IsBounded f same = record { at = λ w b. IsBounded-same w (f w) (same w) b }

  revive-IsBounded : (o : Option Subscription) → Keeps IsBounded (revive o)
  unfolding revive
  revive-IsBounded none = Keeps-pure
  revive-IsBounded (some sub) = quiet-IsBounded _ (λ w. refl)

  bring_back-IsBounded : (p : PaymentRow) (o : Option String) → Keeps IsBounded (bring_back p o)
  unfolding bring_back
  bring_back-IsBounded p none = Keeps-pure
  bring_back-IsBounded p (some sub_id) = search (keeps_rules, revive-IsBounded) depth 8

  end_rows-IsBounded :
      (q : Subscription → Bool) (f : Subscription → Subscription)
      → Keeps IsBounded
          (modify (λ w. record w { subscriptions = update_where q f w.subscriptions }))
  end_rows-IsBounded q f = quiet-IsBounded _ (λ w. refl)

  withdraw_paid-IsBounded :
      (p : PaymentRow) (o : Option String) → Keeps IsBounded (withdraw_paid p o)
  unfolding withdraw_paid withdraw
  withdraw_paid-IsBounded p none = Keeps-pure
  withdraw_paid-IsBounded p (some sub_id) =
      search (keeps_rules, end_rows-IsBounded, bring_back-IsBounded) depth 12

  invalidate-IsBounded :
      (user_id : String) → Keeps IsBounded (invalidate_subscription_cache user_id)
  unfolding invalidate_subscription_cache
  invalidate-IsBounded user_id = quiet-IsBounded _ (λ w. refl)

  -- the row that the refund is noted on
  updated-IsBounded :
      (p fresh : PaymentRow) (total : ℕ) (w : Ledger)
      → total ≤ amount
      → find (is_payment id) w.payments ≡ some fresh
      → IsBounded w
      → IsBounded (record w {
        payments =
            update_where
              (is_payment fresh.id)
              (refunded_by p.amount (max total fresh.refunded_amount))
              w.payments;
      })
  updated-IsBounded p fresh total w fits at b =
      let same : b.row ≡ fresh = some-eq b.row fresh (sym b.found ∙ at) in
      let most = max total fresh.refunded_amount in
      let its : fresh.id ≡ id =
        (eq_iff fresh.id id).0 (find_sound (is_payment id) w.payments fresh at) in
      record {
        row = refunded_by p.amount most fresh;
        found =
            ap
              (λ k.
                find (is_payment id)
                  (update_where (is_payment k) (refunded_by p.amount most) w.payments))
              its
            ∙ find-update_row (is_payment id) (refunded_by p.amount most) w.payments fresh
                (λ q. refl) at;
        same_amount = ap (λ (q : PaymentRow). q.amount) (sym same) ∙ b.same_amount;
        not_lowered =
            le_max low total b.row.refunded_amount fresh.refunded_amount
              (ap (λ (q : PaymentRow). q.refunded_amount) same) b.not_lowered;
        not_above =
            max_le total b.row.refunded_amount fresh.refunded_amount amount
              (ap (λ (q : PaymentRow). q.refunded_amount) same) fits b.not_above;
      }

  apply_total-IsBounded :
      (p fresh : PaymentRow) (total : ℕ) (w : Ledger)
      → total ≤ amount
      → find (is_payment id) w.payments ≡ some fresh
      → IsBounded w
      → IsBounded (apply_total p total fresh w).1
  unfolding apply_total update_payment
  apply_total-IsBounded p fresh total w fits at b =
      let most = max total fresh.refunded_amount in
      elim (Bool-cases (most == 0)) [
        | inl nothing ↦ rw nothing b
        | inr more ↦ rw more (
            (Keeps-if (most == p.amount) (withdraw_paid-IsBounded p p.subscription_id)
                Keeps-pure).at
              _ (updated-IsBounded p fresh total w fits at b))
      ]

module _ (g : Gateway) (p : PaymentRow) (low : ℕ) (expected : Option String) where
  refunds_of :
      (total : ℕ) (w : Ledger) (o : Option PaymentRow)
      → total ≤ p.amount
      → find (is_payment p.id) w.payments ≡ o
      → IsBounded p.id p.amount low w
      → IsBounded p.id p.amount low
          ((elim o as (λ _. Action Ledger (Unit {0})) [
            | none ↦ pure tt
            | some q ↦ apply_total p total q
          ])
            w).1
  refunds_of total w none fits at b = b
  refunds_of total w (some q) fits at b =
      apply_total-IsBounded p.id p.amount low p q total w fits at b

  apply_refunds-IsBounded :
      (total : ℕ) → total ≤ p.amount → Keeps (IsBounded p.id p.amount low) (apply_refunds p total)
  unfolding apply_refunds
  apply_refunds-IsBounded total fits = record {
    at = λ w b. refunds_of total w (find (is_payment p.id) w.payments) fits refl b;
  }

  with_total-IsBounded :
      (total : ℕ)
      → Keeps (IsBounded p.id p.amount low) (do
        throw_if
            (ltb max_safe total || ltb p.amount total)
            (app_error "Refund totals need a billing review." 409)
        locked (apply_refunds p total)
        invalidate_subscription_cache p.user_id)
  with_total-IsBounded total = elim (Bool-cases (ltb max_safe total || ltb p.amount total)) [
    | inl above ↦ rw above (record { at = λ w b. b })
    | inr fits ↦ rw fits (
        Keeps-then (Keeps-locked (apply_refunds-IsBounded total (ground arith)))
          (invalidate-IsBounded p.id p.amount low p.user_id))
  ]

  reconcile-Keeps : Keeps (IsBounded p.id p.amount low) (reconcile_refund_balance g p expected)
  unfolding reconcile_refund_balance
  reconcile-Keeps = search (ledger_rules, with_total-IsBounded) depth 10

  -- Whatever the provider replies: where no more of a payment is refunded than its amount, a
  -- reconciliation of it, whether it succeeds or throws, keeps the payment and its amount, never lowers
  -- what is refunded of it and never raises that above the amount.
  pub reconcile_refund_balance-IsBounded :
      (w : Ledger)
      → IsBounded p.id p.amount low w
      → IsBounded p.id p.amount low (reconcile_refund_balance g p expected w).1
  reconcile_refund_balance-IsBounded w b = reconcile-Keeps.at w b
