-- ===== src/Purchases/Repeated.antt =====
-- A checkout that is asked for again under the same request key.
use url_shortner_system_desi.Common.{
  pure, throw, ℕ, String, Bool, true, false, not, ◌&&◌, Option, none, some, [], ◌∷◌, Action, ◌≡◌,
  refl, ap, ◌∙◌, Result, ok, err, Error, if◌then◌else◌, find, ◌>>=◌, ◌>>◌, trim, ltb, count_chars,
  throw_if, app_error, app_error_with,
}
use url_shortner_system_desi.State.{BillingCycle}
use url_shortner_system_desi.Billing.Period.{UtcDate}
use url_shortner_system_desi.Purchases.Gateway.{Gateway}
use url_shortner_system_desi.Purchases.State.{locked, Ledger, PaymentRow, Fingerprint, Checkout}
use url_shortner_system_desi.Purchases.Checkout.{
  place_order, create_with, create_billing_order, answer_of, CheckoutAnswer, payment_for,
  checkout_response,
}
use url_shortner_system_desi.Purchases.Attempts.{
  is_attempt, is_request_key, CheckoutInput, has_payment, is_failed, same_fingerprint,
}
use url_shortner_system_desi.Purchases.Reserve.{reuse, reserve_found, existing, reserve}

abbrev pub other_purchase : Error
other_purchase = app_error "This checkout key belongs to a different purchase." 409

abbrev pub was_rejected : Error
was_rejected =
    app_error_with "This checkout was rejected. Start a new checkout." 409 none
      (some "CHECKOUT_REJECTED")

abbrev pub unconfirmed_checkout : Checkout → Error
unconfirmed_checkout c =
    app_error_with
      "The checkout result is not confirmed. Refresh billing before creating another payment." 409
      (some (("checkoutId", c.id) ∷ [])) (some "PAYMENT_UNCERTAIN")

abbrev pub known_answer : Checkout → Option PaymentRow → Result CheckoutAnswer
known_answer c none = err (unconfirmed_checkout c)
known_answer c (some p) = ok (answer_of c p)

-- what the first attempt came to, for the same purchase
abbrev pub first_answer : Fingerprint → Checkout → Ledger → Result CheckoutAnswer
first_answer f c s =
    if not (same_fingerprint c.fingerprint f)
    then err other_purchase
    else if is_failed c.status && not (has_payment c)
    then err was_rejected
    else known_answer c (payment_for c.payment_id s)

response_as :
    (c : Checkout) (s : Ledger) (o : Option PaymentRow)
    → (elim o as (λ _. Action Ledger CheckoutAnswer) [
      | none ↦ throw (unconfirmed_checkout c)
      | some p ↦ pure (answer_of c p)
    ])
        s
      ≡ (known_answer c o, s)
response_as c s none = refl
response_as c s (some p) = refl

checkout_response_lem :
    (c : Checkout) (s : Ledger)
    → checkout_response c s ≡ (known_answer c (payment_for c.payment_id s), s)
unfolding checkout_response
checkout_response_lem c s = response_as c s (payment_for c.payment_id s)

-- the transaction that finds the first attempt, by what its two guards say
answered :
    (c : Checkout) (k : Checkout → Action Ledger CheckoutAnswer) (s : Ledger) (other failed : Bool)
    → (do
      r ← locked (do throw_if other other_purchase; throw_if failed was_rejected; pure (existing c))
      if r.is_existing then checkout_response r.attempt else k r.attempt)
        s
      ≡ (
        if other
            then err other_purchase
            else if failed
            then err was_rejected
            else known_answer c (payment_for c.payment_id s),
        s,
      )
unfolding locked
answered c k s true failed = refl
answered c k s false true = refl
answered c k s false false = checkout_response_lem c s

module _ (to_utc : ℕ → UtcDate) (from_utc : UtcDate → ℕ) (new_id : ℕ → String)
    (upper : String → String) (id_before : String → String → Bool) (g : Gateway) where
  abbrev fingerprint_of : CheckoutInput → BillingCycle → Fingerprint
  fingerprint_of input cycle = record {
    plan_key = input.plan_key;
    cycle = cycle;
    code = upper (trim input.coupon_code);
  }

  -- A request for a checkout under a key that its user has used before changes nothing. It is answered
  -- with the payment of the first attempt where plan, cycle and code are the same and the payment is
  -- known, and with an error otherwise.
  pub create_billing_order-repeated :
      (user_id : String) (input : CheckoutInput) (cycle : BillingCycle) (c : Checkout) (s : Ledger)
      → input.billing_cycle ≡ some cycle
      → is_request_key input.request_key ≡ true
      → ltb 64 (count_chars input.coupon_code) ≡ false
      → find (is_attempt user_id input.request_key) s.checkouts ≡ some c
      → create_billing_order to_utc from_utc new_id upper id_before g user_id input s
        ≡ (first_answer (fingerprint_of input cycle) c s, s)
  unfolding create_billing_order create_with reserve reserve_found reuse
  create_billing_order-repeated user_id input cycle c s cycled keyed short known =
      let f = fingerprint_of input cycle in
      let k = place_order to_utc from_utc new_id upper id_before g user_id in
      ap (λ o. create_with to_utc from_utc new_id upper id_before g user_id input o s) cycled
      ∙ rw (create_with, keyed, short)
          (ap
              (λ o.
                (do
                  r ← locked (reserve_found new_id upper id_before g user_id input f o)
                  if r.is_existing then checkout_response r.attempt else k r.attempt)
                  s)
              known
            ∙ answered c k s (not (same_fingerprint c.fingerprint f))
                (is_failed c.status && not (has_payment c)))
