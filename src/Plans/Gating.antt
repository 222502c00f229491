-- ===== src/Plans/Gating.antt =====
-- The checks of services/planLimitService.js that a request goes through.
use url_shortner_system_desi.Common.{
  ℕ, ◌+◌, ◌-◌, ◌*◌, String, Bool, true, false, not, ◌&&◌, ◌||◌, Option, none, some, [], ◌∷◌, Action,
  pure, gets, throw, throw_if, ◌>>=◌, ◌>>◌, str_eq, ◌==◌, leb, ltb, if◌then◌else◌, find, count,
  concat, show_nat, truthy, is_empty, trim, plan_limit_error,
}
use url_shortner_system_desi.State.{
  Url, PlanLimit, ActiveSubscription, CustomDomain, World, query, sql_eq,
}
use url_shortner_system_desi.Repository.{is_true}
use url_shortner_system_desi.Plans.Defs.{
  day, get_active_subscription, limit_of, has_field, feature_of,
}

unfoldable pub has_feature : String → String → Action World Bool
unfolding has_field
has_feature user_id key = do
  sub ← get_active_subscription user_id
  pure (feature_of (limit_of sub) key)

abbrev pub is_active_of : String → Url → Bool
is_active_of user_id url = sql_eq url.user_id (some user_id) && is_true url.is_active

abbrev pub plan_name : Option ActiveSubscription → String
plan_name none = ""
plan_name (some s) = elim s.plan [ none ↦ "" | some p ↦ p.name ]

unfoldable pub check_count : String → String → ℕ → Action World (Unit {0})
check_count user_id name max_urls = do
  active_count ← query (λ w. count (is_active_of user_id) w.urls)
  throw_if (leb max_urls active_count) (
      plan_limit_error "max_urls" (
        concat (
          "You have reached the maximum URL count limit of "
          ∷ show_nat max_urls
          ∷ " URLs on your \""
          ∷ name
          ∷ "\" plan. Please upgrade to create more short URLs."
          ∷ [])))

-- `null` is no limit
unfoldable pub check_below : String → String → Option ℕ → Action World (Unit {0})
unfolding check_count
check_below user_id name none = pure tt
check_below user_id name (some max_urls) = check_count user_id name max_urls

unfoldable pub check_max : String → String → Option PlanLimit → Action World (Unit {0})
unfolding check_below
check_max user_id name none = throw (plan_limit_error "max_urls" "No active subscription found.")
check_max user_id name (some l) = check_below user_id name l.max_urls

unfoldable pub check_url_limit : String → Action World (Unit {0})
unfolding check_max
check_url_limit user_id = do
  sub ← get_active_subscription user_id
  check_max user_id (plan_name sub) (limit_of sub)

-- `null` is no cutoff; a date before the epoch is rounded up to it
abbrev pub cutoff_of : ℕ → Option PlanLimit → Option ℕ
cutoff_of now none = some now
cutoff_of now (some l) = elim l.analytics_retention_days [
  | none ↦ none
  | some days ↦ some (now - days * day)
]

unfoldable pub get_analytics_retention_cutoff : String → Action World (Option ℕ)
get_analytics_retention_cutoff user_id = do
  sub ← get_active_subscription user_id
  gets (λ (w : World). cutoff_of w.now (limit_of sub))

abbrev pub rate_of : Option PlanLimit → ℕ
rate_of none = 10
rate_of (some l) = elim l.api_rate_limit_per_min [ none ↦ 10 | some n ↦ if n == 0 then 10 else n ]

unfoldable pub get_api_rate_limit : String → Action World ℕ
get_api_rate_limit user_id = do sub ← get_active_subscription user_id; pure (rate_of (limit_of sub))

-- the options of `validateUrlGating`
pub record GatedFields : Type 0 where
  pub custom_alias : Option String
  pub expires_at : Option ℕ
  pub password : Option String
  pub custom_domain_id : Option ℕ

unfoldable pub demand : String → String → String → Action World (Unit {0})
demand user_id feature message = do
  allowed ← has_feature user_id feature
  throw_if (not allowed) (plan_limit_error feature message)

unfoldable pub gate_alias : String → Option String → Action World (Unit {0})
unfolding demand
gate_alias user_id custom_alias =
    if truthy custom_alias
    then demand user_id "custom_alias_allowed"
        "Custom aliases are not allowed on your current plan. Please upgrade."
    else pure tt

-- `Math.abs(diffDays - days) < 60 / 1440`: within an hour of `days` from now
abbrev pub is_near : ℕ → ℕ → ℕ → Bool
is_near now days t = ltb ((t - (now + days * day)) + ((now + days * day) - t)) 3600000

unfoldable pub choose_expiry : Bool → Option ℕ → Action World (Option ℕ)
choose_expiry true expires_at = pure expires_at
choose_expiry false none = gets (λ (w : World). some (w.now + 7 * day))
choose_expiry false (some t) = do
  now ← gets (λ (w : World). w.now)
  throw_if (not (is_near now 7 t || is_near now 30 t)) (
      plan_limit_error "custom_expiry_allowed"
        "Custom expiration dates are not allowed on your current plan. Please choose 7 days or 30 days.")
  pure (some t)

unfoldable pub gate_expiry : String → Option ℕ → Action World (Option ℕ)
unfolding choose_expiry
gate_expiry user_id expires_at = do
  allowed ← has_feature user_id "custom_expiry_allowed"
  choose_expiry allowed expires_at

-- `password && typeof password === "string" && password.trim().length > 0`
abbrev pub has_text : Option String → Bool
has_text none = false
has_text (some s) = not (is_empty s) && not (is_empty (trim s))

unfoldable pub gate_password : String → Option String → Action World (Unit {0})
unfolding demand
gate_password user_id password =
    if has_text password
    then demand user_id "password_protected_links"
        "Password-protected links are not allowed on your current plan. Please upgrade."
    else pure tt

abbrev pub may_use : String → Option CustomDomain → Bool
may_use user_id none = false
may_use user_id (some d) = str_eq d.user_id user_id && d.verified

unfoldable pub gate_domain : String → Option ℕ → Action World (Unit {0})
unfolding demand
gate_domain user_id none = pure tt
gate_domain user_id (some id) = do
  demand user_id "custom_domain_allowed"
      "Custom domains are not allowed on your current plan. Please upgrade."
  domain ← query (λ w. find (λ (d : CustomDomain). d.id == id) w.domains)
  throw_if (not (may_use user_id domain)) (
      plan_limit_error "custom_domain_allowed"
        "Invalid, unverified, or unauthorized custom domain selection.")

-- the result is the expiry to store
unfoldable pub validate_url_gating : String → GatedFields → Action World (Option ℕ)
unfolding gate_alias gate_expiry gate_password gate_domain
validate_url_gating user_id fields = do
  gate_alias user_id fields.custom_alias
  expires_at ← gate_expiry user_id fields.expires_at
  gate_password user_id fields.password
  gate_domain user_id fields.custom_domain_id
  pure expires_at
