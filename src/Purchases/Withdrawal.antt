-- ===== src/Purchases/Withdrawal.antt =====
-- What a refund of a purchase does to the active subscriptions.
use url_shortner_system_desi.Common.{
  pure, ℕ, String, Bool, true, false, ◌&&◌, Option, none, some, List, All, any, find, update_where,
  ◌≡◌, refl, sym, ap, ◌∙◌, arith, if◌then◌else◌, str_eq, eq_iff, Bool-cases, inl, inr, Keeps,
  All-weaken, All-update_where, find-All, any-All,
}
use url_shortner_system_desi.State.{Subscription, is_active_status}
use url_shortner_system_desi.Purchases.State.{Ledger, PaymentRow}
use url_shortner_system_desi.Purchases.Balance.{
  ended, is_sub_of, revived, revive, bring_back, withdraw, can_return,
}
use url_shortner_system_desi.Purchases.OneActive.{
  is_same, IdleFits-revived, set_to, Fits-ended, OneActive, Fits, IdleFits,
}

module _ (drawn_at : String → ℕ) where
  -- The subscription that ends was its user's active one, so another may return.
  IdleFits-ended :
      (owner only : String → String) (d : ℕ) (u sub_id : String) (now : ℕ) (s : Subscription)
      → sub_id ≡ only u
      → Fits drawn_at owner only d s
      → IdleFits drawn_at owner only d u (if is_sub_of sub_id u s then ended now s else s)
  IdleFits-ended owner only d u sub_id now s was x = elim (Bool-cases (is_sub_of sub_id u s)) [
    | inl hit ↦
        rw hit (Fits-ended drawn_at owner only d s (ended now s) refl refl refl x, λ mine. refl)
    | inr miss ↦ rw miss (
      x,
      λ mine. elim (Bool-cases (is_active_status s.status)) [
        | inl on ↦
            let at_sub : s.id ≡ sub_id = x.2 on ∙ ap only ((eq_iff s.user_id u).0 mine) ∙ sym was in
            ground (arith, is_same s.id sub_id at_sub)
        | inr off ↦ off
      ],
    )
  ]

  Fits-ended_any :
      (owner only : String → String) (d : ℕ) (u sub_id : String) (now : ℕ) (s : Subscription)
      → Fits drawn_at owner only d s
      → Fits drawn_at owner only d (if is_sub_of sub_id u s then ended now s else s)
  Fits-ended_any owner only d u sub_id now s x = elim (Bool-cases (is_sub_of sub_id u s)) [
    | inl hit ↦ rw hit (Fits-ended drawn_at owner only d s (ended now s) refl refl refl x)
    | inr miss ↦ rw miss x
  ]

  -- The user has no active subscription.
  record NoneActive (u : String) (w : Ledger) : Type 0 where
    owner : String → String
    only : String → String
    fits : All (IdleFits drawn_at owner only w.drawn u) w.subscriptions

  OneActive-none : (u : String) (w : Ledger) → NoneActive u w → OneActive drawn_at w
  OneActive-none u w n = record {
    owner = n.owner;
    only = n.only;
    fits =
        All-weaken (IdleFits drawn_at n.owner n.only w.drawn u)
          (Fits drawn_at n.owner n.only w.drawn) w.subscriptions (λ s x. x.0) n.fits;
  }

  revive-OneActive :
      (now : ℕ) (payments : List PaymentRow) (id u : String) (w : Ledger) (o : Option Subscription)
      → find (can_return now payments id u) w.subscriptions ≡ o
      → NoneActive u w
      → OneActive drawn_at (revive o w).1
  unfolding revive
  revive-OneActive now payments id u w none h n = OneActive-none u w n
  revive-OneActive now payments id u w (some prev) h n =
      let found =
        find-All (IdleFits drawn_at n.owner n.only w.drawn u) (can_return now payments id u)
          w.subscriptions prev n.fits h in
      let its : n.owner prev.id ≡ u =
        found.1.0.0 ∙ (eq_iff prev.user_id u).0 (ground (arith, found.0)) in
      record {
        owner = n.owner;
        only = set_to drawn_at u prev.id n.only;
        fits =
            All-update_where (IdleFits drawn_at n.owner n.only w.drawn u)
              (Fits drawn_at n.owner (set_to drawn_at u prev.id n.only) w.drawn)
              (λ t. str_eq t.id prev.id) revived w.subscriptions
              (λ s x. IdleFits-revived drawn_at n.owner n.only w.drawn u prev s its x) n.fits;
      }

  bring_back-OneActive :
      (p : PaymentRow) (id : Option String) (w : Ledger)
      → NoneActive p.user_id w
      → OneActive drawn_at (bring_back p id w).1
  unfolding bring_back
  bring_back-OneActive p none w n = OneActive-none p.user_id w n
  bring_back-OneActive p (some id) w n =
      revive-OneActive w.now w.payments id p.user_id w
        (find (can_return w.now w.payments id p.user_id) w.subscriptions) refl n

  -- `withdraw` after it has looked for the subscription
  module _ (p : PaymentRow) (sub_id : String) (w : Ledger) (o : OneActive drawn_at w) where
    abbrev after_end : Ledger
    after_end = record w {
      subscriptions = update_where (is_sub_of sub_id p.user_id) (ended w.now) w.subscriptions;
    }

    end-OneActive : OneActive drawn_at after_end
    end-OneActive = record {
      owner = o.owner;
      only = o.only;
      fits =
          All-update_where (Fits drawn_at o.owner o.only w.drawn)
            (Fits drawn_at o.owner o.only w.drawn) (is_sub_of sub_id p.user_id) (ended w.now)
            w.subscriptions (Fits-ended_any o.owner o.only w.drawn p.user_id sub_id w.now) o.fits;
    }

    end-NoneActive : sub_id ≡ o.only p.user_id → NoneActive p.user_id after_end
    end-NoneActive was = record {
      owner = o.owner;
      only = o.only;
      fits =
          All-update_where (Fits drawn_at o.owner o.only w.drawn)
            (IdleFits drawn_at o.owner o.only w.drawn p.user_id) (is_sub_of sub_id p.user_id)
            (ended w.now) w.subscriptions
            (λ s. IdleFits-ended o.owner o.only w.drawn p.user_id sub_id w.now s was) o.fits;
    }

    abbrev is_linked : Subscription → Bool
    is_linked t = is_sub_of sub_id p.user_id t && is_active_status t.status

    linked-only : any is_linked w.subscriptions ≡ true → sub_id ≡ o.only p.user_id
    linked-only h =
        let found =
          any-All (Fits drawn_at o.owner o.only w.drawn) is_linked w.subscriptions o.fits h in
        let t = found.0 in
        sym ((eq_iff t.id sub_id).0 (ground (arith, found.1)))
        ∙ found.2.2 (ground (arith, found.1))
        ∙ ap o.only ((eq_iff t.user_id p.user_id).0 (ground (arith, found.1)))

    withdraw_as :
        (linked : Bool)
        → any is_linked w.subscriptions ≡ linked
        → OneActive drawn_at
            ((if linked then bring_back p p.metadata.previous_subscription_id else pure tt)
              after_end).1
    withdraw_as true h =
        bring_back-OneActive p p.metadata.previous_subscription_id after_end
          (end-NoneActive (linked-only h))
    withdraw_as false h = end-OneActive

  pub withdraw-OneActive :
      (p : PaymentRow) (sub_id : String) → Keeps (OneActive drawn_at) (withdraw p sub_id)
  unfolding withdraw
  withdraw-OneActive p sub_id = record {
    at = λ w o. withdraw_as p sub_id w o (any (is_linked p sub_id w o) w.subscriptions) refl;
  }
