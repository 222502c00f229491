-- ===== src/Purchases/Coupons.antt =====
-- `validateBillingCoupon`, and the redemption of a coupon by `activate`. `upper` is
-- `String.prototype.toUpperCase`.
use url_shortner_system_desi.Common.{
  ℕ, ◌+◌, String, Bool, true, false, not, ◌&&◌, ◌||◌, Option, none, some, List, [], ◌∷◌, ◌++◌,
  Action, any, find, leb, ltb, if◌then◌else◌, str_eq, update_where, pure, gets, modify, throw,
  throw_if, ◌>>=◌, ◌>>◌, app_error, trim, is_empty, count_chars,
}
use url_shortner_system_desi.Purchases.State.{Ledger, CouponRow, Redemption, PaymentRow}

abbrev pub is_redemption : String → String → Redemption → Bool
is_redemption coupon_id user_id r = str_eq r.coupon_id coupon_id && str_eq r.user_id user_id

abbrev is_past : ℕ → Option ℕ → Bool
is_past now none = false
is_past now (some t) = leb t now

abbrev pub is_used_up : CouponRow → Bool
is_used_up c = elim c.max_redemptions [ none ↦ false | some n ↦ leb n c.times_redeemed ]

abbrev applies_to : String → List String → Bool
applies_to plan_key [] = true
applies_to plan_key plans = any (λ k. str_eq k plan_key) plans

unfoldable pub check_coupon : String → String → Option CouponRow → Action Ledger CouponRow
check_coupon plan_key user_id none = throw (app_error "This coupon is invalid or expired." 400)
check_coupon plan_key user_id (some c) = do
  now ← gets (λ (s : Ledger). s.now)
  throw_if (not c.is_active || ltb now c.valid_from || is_past now c.valid_until)
      (app_error "This coupon is invalid or expired." 400)
  throw_if (is_used_up c) (app_error "This coupon has reached its redemption limit." 409)
  throw_if (not (applies_to plan_key c.applicable_plans))
      (app_error "This coupon does not apply to the selected plan." 400)
  used ← gets (λ (s : Ledger). any (is_redemption c.id user_id) s.redemptions)
  throw_if (not (is_empty user_id) && used) (app_error "You have already used this coupon." 409)
  pure c

module _ (upper : String → String) where
  unfoldable pub validate_billing_coupon : String → String → String → Action Ledger CouponRow
  unfolding check_coupon
  validate_billing_coupon code plan_key user_id = do
    throw_if (is_empty (trim code) || ltb 64 (count_chars code))
        (app_error "Enter a valid coupon code." 400)
    found ←
        gets (λ (s : Ledger). find (λ (c : CouponRow). str_eq c.code (upper (trim code))) s.coupons)
    check_coupon plan_key user_id found

abbrev pub redeemed_once : CouponRow → CouponRow
redeemed_once c = record c { times_redeemed = c.times_redeemed + 1 }

-- once for each user
unfoldable pub redeem : PaymentRow → Option String → Action Ledger (Unit {0})
redeem p none = pure tt
redeem p (some coupon_id) = modify (λ s.
    if any (is_redemption coupon_id p.user_id) s.redemptions then s else record s {
      redemptions =
          s.redemptions
          ++ record { coupon_id = coupon_id; user_id = p.user_id; payment_id = p.id } ∷ [];
      coupons = update_where (λ (c : CouponRow). str_eq c.id coupon_id) redeemed_once s.coupons;
    })
