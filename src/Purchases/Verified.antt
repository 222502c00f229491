-- ===== src/Purchases/Verified.antt =====
-- What a verified payment has shown.
use url_shortner_system_desi.Common.{
  eq_iff, ℕ, String, Bool, true, false, not, ◌||◌, Option, none, some, [], ◌∷◌, Action, ◌≡◌, refl,
  sym, ap, ◌∙◌, arith, Result, ok, err, Error, find, ◌>>=◌, ◌>>◌, str_eq, concat, throw_if,
  app_error, gets, bind-eq-ok,
}
use url_shortner_system_desi.Billing.Period.{UtcDate}
use url_shortner_system_desi.Purchases.Gateway.{Gateway, Entity, request}
use url_shortner_system_desi.Purchases.State.{PaymentRow, Ledger}
use url_shortner_system_desi.Purchases.Settlement.{
  verify_billing_payment, settle_payment, valid_signature, verify_found, read_result,
}
use url_shortner_system_desi.Purchases.Attempts.{is_order_of}

-- what passed a guard
guarded :
    {A : Type 0} (b : Bool) (e : Error) (m : Action Ledger A) (s t : Ledger) (a : A)
    → (throw_if b e >> m) s ≡ (ok a, t)
    → (b ≡ false) × (m s ≡ (ok a, t))
guarded true e m s t a h = ground arith
guarded false e m s t a h = (refl, h)

read_result-ok :
    {A : Type 0} (r : Result A) (s t : Ledger) (a : A)
    → read_result r s ≡ (ok a, t)
    → (r ≡ ok a) × (t ≡ s)
read_result-ok (ok b) s t a h = (ap (λ o. o.0) h, sym (ap (λ o. o.1) h))
read_result-ok (err e) s t a h = ground arith

module _ (to_utc : ℕ → UtcDate) (from_utc : UtcDate → ℕ) (new_id : ℕ → String)
    (hmac : String → String) (g : Gateway) (user_id order_id payment_id signature : String)
    (s t : Ledger) (q : PaymentRow) where
  -- the payment and the provider's payment that a verification has matched
  pub record IsVerified : Type 0 where
    pub row : PaymentRow
    pub known : find (is_order_of order_id) s.payments ≡ some row
    pub owned : row.user_id ≡ user_id
    pub signed :
        valid_signature signature (hmac (concat (row.gateway_order_id ∷ "|" ∷ payment_id ∷ [])))
        ≡ true
    pub entity : Entity
    pub replied : request g (g.payment payment_id) ≡ ok entity
    pub of_order : entity.order_id ≡ row.gateway_order_id
    pub settled : settle_payment to_utc from_utc new_id g entity s ≡ (ok q, t)

  abbrev settle_own : PaymentRow → Entity → Action Ledger PaymentRow
  settle_own p e = do
    throw_if (not (str_eq e.order_id p.gateway_order_id))
        (app_error "Payment does not belong to this order." 400)
    settle_payment to_utc from_utc new_id g e

  abbrev ask_provider : PaymentRow → Action Ledger PaymentRow
  ask_provider p = do e ← read_result (request g (g.payment payment_id)); settle_own p e

  abbrev is_forged : PaymentRow → Bool
  is_forged p =
      not (valid_signature signature (hmac (concat (p.gateway_order_id ∷ "|" ∷ payment_id ∷ []))))

  abbrev check_signature : PaymentRow → Action Ledger PaymentRow
  check_signature p = do
    throw_if (is_forged p) (app_error "Payment signature verification failed." 400)
    ask_provider p

  abbrev is_foreign : PaymentRow → Bool
  is_foreign p = not (str_eq p.user_id user_id) || not (str_eq p.gateway "razorpay")

  verified_found :
      (o : Option PaymentRow)
      → find (is_order_of order_id) s.payments ≡ o
      → verify_found to_utc from_utc new_id hmac g user_id payment_id signature o s ≡ (ok q, t)
      → IsVerified
  unfolding verify_found
  verified_found none known h = ground arith
  verified_found (some p) known h =
      let owner =
        guarded (is_foreign p) (app_error "Payment not found." 404) (check_signature p) s t q h in
      let sign =
        guarded (is_forged p) (app_error "Payment signature verification failed." 400)
          (ask_provider p) s t q owner.1 in
      let asked =
        bind-eq-ok (read_result (request g (g.payment payment_id))) (settle_own p) s t q sign.1 in
      let e = asked.0 in
      let reply = read_result-ok (request g (g.payment payment_id)) s asked.1 e asked.2 in
      let own =
        guarded (not (str_eq e.order_id p.gateway_order_id))
          (app_error "Payment does not belong to this order." 400)
          (settle_payment to_utc from_utc new_id g e) asked.1 t q asked.3 in
      record {
        row = p;
        known = known;
        owned = (eq_iff p.user_id user_id).0 (ground (arith, owner.0));
        signed = ground (arith, sign.0);
        entity = e;
        replied = reply.0;
        of_order = (eq_iff e.order_id p.gateway_order_id).0 (ground (arith, own.0));
        settled = ap (settle_payment to_utc from_utc new_id g e) (sym reply.1) ∙ own.1;
      }

  -- A verification that returns found the payment of the order among its user's, with a signature of
  -- the order and the payment, and settled the payment that the provider itself then described, which
  -- is of that order.
  pub verify_billing_payment-IsVerified :
      verify_billing_payment to_utc from_utc new_id hmac g user_id order_id payment_id signature s
        ≡ (ok q, t)
      → IsVerified
  unfolding verify_billing_payment
  verify_billing_payment-IsVerified h =
      verified_found (find (is_order_of order_id) s.payments) refl
        (guarded (not g.is_configured) (app_error "Invalid payment verification request." 400)
          (do
            found ← gets (λ (w : Ledger). find (is_order_of order_id) w.payments)
            verify_found to_utc from_utc new_id hmac g user_id payment_id signature found)
          s t q h).1
