-- ===== src/Plans/Defs.antt =====
-- The functions of services/planLimitService.js.
use url_shortner_system_desi.Common.{
  ℕ, ◌+◌, ◌*◌, String, Bool, true, false, not, ◌&&◌, Option, none, some, List, [], ◌∷◌, Action, ok,
  pure, gets, ◌>>=◌, ◌>>◌, str_eq, ◌==◌, ltb, if◌then◌else◌, find, insert,
}
use url_shortner_system_desi.State.{
  User, PlanLimit, Plan, Subscription, ActiveSubscription, World, is_admin, is_active_status,
  active, monthly, yearly, query,
}
use url_shortner_system_desi.Cache.{answers}

abbrev pub day : ℕ
day = 86400000

abbrev pub bypass_subscription : ℕ → Plan → ActiveSubscription
bypass_subscription now plan = record {
  id = "bypass-sub-id";
  user_id = none;
  plan_id = none;
  plan = some plan;
  billing_cycle = yearly;
  status = active;
  started_at = some now;
  current_period_end = some (now + 365 * day);
  cancel_at_period_end = none;
}

abbrev pub plan_by_id : String → List Plan → Option Plan
plan_by_id id = find (λ (p : Plan). str_eq p.id id)

abbrev pub plan_by_key : String → List Plan → Option Plan
plan_by_key key = find (λ (p : Plan). str_eq p.key key)

-- include: { plan: { include: { limit: true } } }
abbrev pub joined : List Plan → Subscription → ActiveSubscription
joined plans s = record {
  id = s.id;
  user_id = some s.user_id;
  plan_id = some s.plan_id;
  plan = plan_by_id s.plan_id plans;
  billing_cycle = s.billing_cycle;
  status = s.status;
  started_at = some s.started_at;
  current_period_end = s.current_period_end;
  cancel_at_period_end = some s.cancel_at_period_end;
}

abbrev pub free_fallback : String → Plan → ActiveSubscription
free_fallback user_id plan = record {
  id = "free-fallback";
  user_id = some user_id;
  plan_id = some plan.id;
  plan = some plan;
  billing_cycle = monthly;
  status = active;
  started_at = none;
  current_period_end = none;
  cancel_at_period_end = some false;
}

-- `OR: [{ current_period_end: null }, { current_period_end: { gt: new Date() } }]`
abbrev pub in_period : ℕ → Option ℕ → Bool
in_period now none = true
in_period now (some end) = ltb now end

abbrev pub is_current : ℕ → String → Subscription → Bool
is_current now user_id s =
    str_eq s.user_id user_id && is_active_status s.status && in_period now s.current_period_end

-- `orderBy: { started_at: "desc" }`, first row: the first of the latest
unfoldable pub later_of : Subscription → Option Subscription → Subscription
later_of s none = s
later_of s (some t) = if ltb s.started_at t.started_at then t else s

unfoldable pub latest : (Subscription → Bool) → List Subscription → Option Subscription
unfolding later_of
latest p [] = none
latest p (s ∷ rest) = if p s then some (later_of s (latest p rest)) else latest p rest

-- a failed write to Redis is logged and swallowed
unfoldable pub cache_subscription : String → ActiveSubscription → Action World (Unit {0})
cache_subscription user_id sub w =
    (ok tt, if answers w then record w { plan_cache = insert user_id sub w.plan_cache } else w)

abbrev pub option_sub : (Plan → ActiveSubscription) → Option Plan → Option ActiveSubscription
option_sub f none = none
option_sub f (some p) = some (f p)

unfoldable pub use_stored : String → Option Subscription → Action World (Option ActiveSubscription)
unfolding cache_subscription
use_stored user_id (some s) = do
  sub ← gets (λ (w : World). joined w.plans s)
  cache_subscription user_id sub
  pure (some sub)
use_stored user_id none = do
  free ← query (λ w. plan_by_key "free" w.plans)
  pure (option_sub (free_fallback user_id) free)

unfoldable pub stored_subscription : String → Action World (Option ActiveSubscription)
unfolding use_stored latest
stored_subscription user_id = do
  found ← query (λ w. latest (is_current w.now user_id) w.subscriptions)
  use_stored user_id found

unfoldable pub business_plan : Option User → Action World (Option Plan)
business_plan none = pure none
business_plan (some u) =
    if is_admin u.role
    then query (λ w. find (λ (p : Plan). str_eq p.key "business" && p.is_active) w.plans)
    else pure none

unfoldable pub use_business : String → Option Plan → Action World (Option ActiveSubscription)
unfolding cache_subscription stored_subscription
use_business user_id (some plan) = do
  sub ← gets (λ (w : World). bypass_subscription w.now plan)
  cache_subscription user_id sub
  pure (some sub)
use_business user_id none = stored_subscription user_id

unfoldable pub get_active_subscription : String → Action World (Option ActiveSubscription)
unfolding business_plan use_business
get_active_subscription user_id = do
  found ← query (λ w. find (λ (u : User). str_eq u.id user_id) w.users)
  business ← business_plan found
  use_business user_id business

-- `sub && sub.plan && sub.plan.limit`
abbrev pub limit_of : Option ActiveSubscription → Option PlanLimit
limit_of none = none
limit_of (some s) = elim s.plan [ none ↦ none | some p ↦ p.limit ]

abbrev pub nonzero : Option ℕ → Bool
nonzero none = false
nonzero (some n) = not (n == 0)

-- `Boolean(limit[featureKey])`; a key that is no column is `undefined`
unfoldable pub has_field : PlanLimit → String → Bool
has_field l key =
    if str_eq key "custom_alias_allowed"
    then l.custom_alias_allowed
    else if str_eq key "custom_domain_allowed"
    then l.custom_domain_allowed
    else if str_eq key "custom_expiry_allowed"
    then l.custom_expiry_allowed
    else if str_eq key "qr_code_allowed"
    then l.qr_code_allowed
    else if str_eq key "password_protected_links"
    then l.password_protected_links
    else if str_eq key "geo_analytics"
    then l.geo_analytics
    else if str_eq key "device_browser_analytics"
    then l.device_browser_analytics
    else if str_eq key "utm_builder"
    then l.utm_builder
    else if str_eq key "api_access"
    then l.api_access
    else if str_eq key "csv_export"
    then l.csv_export
    else if str_eq key "bulk_url_creation"
    then l.bulk_url_creation
    else if str_eq key "webhooks_allowed"
    then l.webhooks_allowed
    else if str_eq key "priority_support"
    then l.priority_support
    else if str_eq key "max_urls"
    then nonzero l.max_urls
    else if str_eq key "analytics_retention_days"
    then nonzero l.analytics_retention_days
    else if str_eq key "team_members_allowed"
    then nonzero l.team_members_allowed
    else if str_eq key "api_rate_limit_per_min"
    then nonzero l.api_rate_limit_per_min
    else false

abbrev pub feature_of : Option PlanLimit → String → Bool
feature_of none key = false
feature_of (some l) key = has_field l key
