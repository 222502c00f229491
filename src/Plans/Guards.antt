-- ===== src/Plans/Guards.antt =====
-- middlewares/planLimit.middleware.js. `user_id` is `req.user?.id`; the limiter itself is a library.
use url_shortner_system_desi.Common.{
  ℕ, String, Bool, true, false, not, Option, none, some, Action, ◌≡◌, refl, sym, ap, ◌∙◌, arith, ok,
  err, Error, Result, app_error, is_empty, truthy, pure, throw_if, ◌>>=◌, ◌>>◌, if◌then◌else◌,
  bind-eq-ok,
}
use url_shortner_system_desi.State.{World}
use url_shortner_system_desi.Plans.Defs.{get_active_subscription}
use url_shortner_system_desi.Plans.Gating.{
  has_feature, check_url_limit, get_api_rate_limit, plan_name,
}

-- `next()`, or the answer 403 with the feature and the name of the plan
pub data Passage : Type 0 where
  passed : Passage
  gated : String → String → Passage

abbrev unauthenticated : Error
unauthenticated = app_error "Authentication required" 401

abbrev or_empty : Option String → String
or_empty none = ""
or_empty (some id) = id

abbrev name_or_none : String → String
name_or_none name = if is_empty name then "None" else name

unfoldable pub answer_feature : String → String → Bool → Action World Passage
unfolding get_active_subscription
answer_feature user_id key true = pure passed
answer_feature user_id key false = do
  sub ← get_active_subscription user_id
  pure (gated key (name_or_none (plan_name sub)))

unfoldable pub require_feature : String → Option String → Action World Passage
unfolding has_feature answer_feature
require_feature key user_id = do
  throw_if (not (truthy user_id)) unauthenticated
  allowed ← has_feature (or_empty user_id) key
  answer_feature (or_empty user_id) key allowed

unfoldable pub enforce_url_limit : Option String → Action World (Unit {0})
unfolding check_url_limit
enforce_url_limit user_id = do
  throw_if (not (truthy user_id)) unauthenticated
  check_url_limit (or_empty user_id)

abbrev or_ten : Result ℕ × World → Result ℕ × World
or_ten (ok n, w) = (ok n, w)
or_ten (err e, w) = (ok 10, w)

-- the requests of a minute, ten where the plan is not known
unfoldable pub max_requests : Option String → Action World ℕ
unfolding get_api_rate_limit
max_requests none w = (ok 10, w)
max_requests (some user_id) w =
    if is_empty user_id then (ok 10, w) else or_ten (get_api_rate_limit user_id w)

passed_answer :
    (user_id key : String) (b : Bool) (w v : World)
    → answer_feature user_id key b w ≡ (ok passed, v)
    → (b ≡ true) × (v ≡ w)
unfolding answer_feature
passed_answer user_id key true w v h = (refl, sym (ap (λ o. o.1) h))
passed_answer user_id key false w v h =
    let (sub, u, got, there) =
      bind-eq-ok (get_active_subscription user_id)
        (λ s. pure (gated key (name_or_none (plan_name s)))) w v passed h in
    ground arith

-- A request passes the guard of a feature only where the user is known and the plan of the user has
-- the feature, as `hasFeature` says at that moment.
require_feature-has_feature :
    (key user_id : String) (w v : World)
    → require_feature key (some user_id) w ≡ (ok passed, v)
    → (is_empty user_id ≡ false) × (has_feature user_id key w ≡ (ok true, v))
unfolding require_feature
require_feature-has_feature key user_id w v h = by_text user_id (is_empty user_id) refl h
  where
    by_text :
        (id : String) (b : Bool)
        → is_empty id ≡ b
        → (throw_if (not (not b)) unauthenticated >> (has_feature id key >>= answer_feature id key))
            w
          ≡ (ok passed, v)
        → (is_empty id ≡ false) × (has_feature id key w ≡ (ok true, v))
    by_text id true e k = ground arith
    by_text id false e k =
        let (b, u, asked, there) =
          bind-eq-ok (has_feature id key) (answer_feature id key) w v passed k in
        let (yes_it_has, same) = passed_answer id key b u v there in
        (e, asked ∙ ap (λ c. (ok c, u)) yes_it_has ∙ ap (λ x. (ok true, x)) (sym same))
