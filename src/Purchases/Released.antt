-- ===== src/Purchases/Released.antt =====
-- A checkout that the provider never heard of.
use url_shortner_system_desi.Common.{
  throw, find_sound, eq_iff, pure, update_where, ℕ, ◌+◌, String, true, false, Option, none, some,
  List, [], ◌≡◌, refl, sym, ap, ◌∙◌, Result, ok, err, if◌then◌else◌, find, ◌>>=◌, ◌>>◌, str_eq, ltb,
  eq_refl, find-update_row, select, ◌==◌, app_error,
}
use url_shortner_system_desi.Billing.Period.{UtcDate}
use url_shortner_system_desi.Purchases.Attempts.{is_open_checkout}
use url_shortner_system_desi.Purchases.Gateway.{Gateway, Order, request}
use url_shortner_system_desi.Purchases.State.{
  rolled_back, locked, update_checkouts, is_checkout, Ledger, Checkout,
}
use url_shortner_system_desi.Purchases.Sync.{
  is_order_for, SyncAnswer, sync_orders, not_created, sync_open, sync_attempt, answer_release,
  own_checkout, release, sync_billing_checkout, released, release_fresh,
}

module _ (to_utc : ℕ → UtcDate) (from_utc : UtcDate → ℕ) (new_id : ℕ → String) (g : Gateway)
    (user_id checkout_id : String) (c : Checkout) (s : Ledger) where
  abbrev after_release : Ledger
  after_release = record s {
    checkouts = update_where (is_checkout c.id) (released to_utc from_utc new_id g) s.checkouts;
  }

  release_fresh_lem :
      c.payment_id ≡ none
      → release_fresh to_utc from_utc new_id g (some c) s ≡ (ok none, after_release)
  unfolding release_fresh update_checkouts
  release_fresh_lem unpaid =
      ap
        (λ o.
          (do
            if elim o [ none ↦ false | some id ↦ true ]
                then pure tt
                else update_checkouts (is_checkout c.id) (released to_utc from_utc new_id g)
            pure o)
            s)
        unpaid

  release_lem :
      c.payment_id ≡ none
      → find (is_checkout c.id) s.checkouts ≡ some c
      → release to_utc from_utc new_id g user_id c s ≡ (ok (not_created c.id), after_release)
  unfolding release locked answer_release
  release_lem unpaid row =
      ap
        (λ o.
          (do
            raced ← locked (release_fresh to_utc from_utc new_id g o)
            answer_release to_utc from_utc new_id g user_id c raced)
            s)
        row
      ∙ ap
          (λ (o : Result (Option String) × Ledger).
            elim (rolled_back s o).0 as (λ _. Result SyncAnswer × Ledger) [
              | ok raced ↦
                  answer_release to_utc from_utc new_id g user_id c raced (rolled_back s o).1
              | err e ↦ (err e, (rolled_back s o).1)
            ])
          (release_fresh_lem unpaid)

  no_orders_lem :
      c.payment_id ≡ none
      → find (is_checkout c.id) s.checkouts ≡ some c
      → ltb (c.created_at + 60000) s.now ≡ true
      → sync_orders to_utc from_utc new_id g user_id c [] s ≡ (ok (not_created c.id), after_release)
  unfolding sync_orders
  no_orders_lem unpaid row late = rw (sync_orders, late) (release_lem unpaid row)

  open_lem :
      (items : List Order)
      → c.amount == 0 ≡ false
      → request g (g.orders_by_receipt c.id) ≡ ok (some items)
      → select (is_order_for c.id) items ≡ []
      → sync_open to_utc from_utc new_id g user_id c s
        ≡ sync_orders to_utc from_utc new_id g user_id c [] s
  unfolding sync_open
  open_lem items costs listed no_orders = rw (sync_open, costs, listed, no_orders) refl

  -- An attempt of the user's own that costs something, has no payment, was made more than a minute ago
  -- and has no order at the provider is given up when it is synchronized: the answer says so, the
  -- attempt is no longer open, and nothing but its row changes.
  pub sync_billing_checkout-releases :
      (items : List Order)
      → find (is_checkout checkout_id) s.checkouts ≡ some c
      → c.user_id ≡ user_id
      → c.payment_id ≡ none
      → c.amount == 0 ≡ false
      → request g (g.orders_by_receipt c.id) ≡ ok (some items)
      → select (is_order_for c.id) items ≡ []
      → ltb (c.created_at + 60000) s.now ≡ true
      → (sync_billing_checkout to_utc from_utc new_id g user_id checkout_id s
          ≡ (ok (not_created c.id), after_release))
        × (find (is_checkout checkout_id) after_release.checkouts
            ≡ some (released to_utc from_utc new_id g c))
        × (is_open_checkout (released to_utc from_utc new_id g c) ≡ false)
  unfolding sync_billing_checkout own_checkout sync_attempt sync_open sync_orders
  sync_billing_checkout-releases items row own unpaid costs listed no_orders late =
      let own_it : str_eq c.user_id user_id ≡ true = rw own (eq_refl user_id) in
      let its : c.id ≡ checkout_id =
        (eq_iff c.id checkout_id).0 (find_sound (is_checkout checkout_id) s.checkouts c row) in
      let here : find (is_checkout c.id) s.checkouts ≡ some c =
        ap (λ k. find (is_checkout k) s.checkouts) its ∙ row in
      (
        ap
              (λ o.
                (do
                  d ← own_checkout to_utc from_utc new_id g user_id o
                  sync_attempt to_utc from_utc new_id g user_id d d.payment_id)
                  s)
              row
            ∙ ap
                (λ b.
                  (do
                    d ← if b then pure c else throw (app_error "Checkout not found." 404)
                    sync_attempt to_utc from_utc new_id g user_id d d.payment_id)
                    s)
                own_it
            ∙ ap (λ o. sync_attempt to_utc from_utc new_id g user_id c o s) unpaid
            ∙ open_lem items costs listed no_orders
            ∙ no_orders_lem unpaid here late,
        ap (λ k. find (is_checkout k) after_release.checkouts) (sym its)
            ∙ find-update_row (is_checkout c.id) (released to_utc from_utc new_id g) s.checkouts c
                (λ d. refl) here,
        ap (λ o. elim o [ none ↦ false | some id ↦ true ]) unpaid,
      )
