-- ===== src/Plans/Frame.antt =====
-- The plan checks change nothing but the Redis copies of subscriptions: they keep every predicate
-- that does not read those.
use url_shortner_system_desi.Common.{
  ℕ, String, Bool, true, false, Option, none, some, inl, inr, Keeps, keeps_rules, arith, Dict,
  Bool-cases,
}
use url_shortner_system_desi.State.{
  User, Plan, Subscription, ActiveSubscription, World, PlanLimit, query,
}
use url_shortner_system_desi.Cache.{answers}
use url_shortner_system_desi.Plans.Defs.{
  get_active_subscription, use_business, business_plan, stored_subscription, use_stored,
  cache_subscription,
}
use url_shortner_system_desi.Plans.Gating.{
  has_feature, demand, gate_alias, gate_expiry, gate_password, gate_domain, choose_expiry,
  validate_url_gating, GatedFields, check_url_limit, check_max, check_below, check_count,
}

pub Keeps-query : {P : World → Type 0} {A : Type 0} (f : World → A) → Keeps P (query f)
Keeps-query f = record { at = λ w p. ground arith }

module _ {P : World → Type 0}
    (blind : (w : World) (c : Dict ActiveSubscription)
      → P w
      → P (record w { plan_cache = c })) where
  cache_subscription-Keeps :
      (id : String) (s : ActiveSubscription) → Keeps P (cache_subscription id s)
  unfolding cache_subscription
  cache_subscription-Keeps id s = record {
    at = λ w p. elim (Bool-cases (answers w)) [ inl e ↦ rw e (blind w _ p) | inr e ↦ rw e p ];
  }

  use_stored-Keeps : (id : String) (s : Option Subscription) → Keeps P (use_stored id s)
  unfolding use_stored
  use_stored-Keeps id none = search (keeps_rules, Keeps-query)
  use_stored-Keeps id (some s) = search (keeps_rules, cache_subscription-Keeps)

  stored_subscription-Keeps : (id : String) → Keeps P (stored_subscription id)
  unfolding stored_subscription
  stored_subscription-Keeps id = search (keeps_rules, Keeps-query, use_stored-Keeps)

  business_plan-Keeps : (u : Option User) → Keeps P (business_plan u)
  unfolding business_plan
  business_plan-Keeps none = search keeps_rules
  business_plan-Keeps (some u) = search (keeps_rules, Keeps-query)

  use_business-Keeps : (id : String) (p : Option Plan) → Keeps P (use_business id p)
  unfolding use_business
  use_business-Keeps id none = stored_subscription-Keeps id
  use_business-Keeps id (some p) = search (keeps_rules, cache_subscription-Keeps)

  pub get_active_subscription-Keeps : (id : String) → Keeps P (get_active_subscription id)
  unfolding get_active_subscription
  get_active_subscription-Keeps id =
      search (keeps_rules, Keeps-query, business_plan-Keeps, use_business-Keeps)

  pub has_feature-Keeps : (id key : String) → Keeps P (has_feature id key)
  unfolding has_feature
  has_feature-Keeps id key = search (keeps_rules, get_active_subscription-Keeps)

  demand-Keeps : (id key message : String) → Keeps P (demand id key message)
  unfolding demand
  demand-Keeps id key message = search (keeps_rules, has_feature-Keeps)

  gate_alias-Keeps : (id : String) (a : Option String) → Keeps P (gate_alias id a)
  unfolding gate_alias
  gate_alias-Keeps id a = search (keeps_rules, demand-Keeps)

  choose_expiry-Keeps : (b : Bool) (e : Option ℕ) → Keeps P (choose_expiry b e)
  unfolding choose_expiry
  choose_expiry-Keeps true e = search keeps_rules
  choose_expiry-Keeps false none = search keeps_rules
  choose_expiry-Keeps false (some t) = search keeps_rules

  gate_expiry-Keeps : (id : String) (e : Option ℕ) → Keeps P (gate_expiry id e)
  unfolding gate_expiry
  gate_expiry-Keeps id e = search (keeps_rules, has_feature-Keeps, choose_expiry-Keeps)

  gate_password-Keeps : (id : String) (p : Option String) → Keeps P (gate_password id p)
  unfolding gate_password
  gate_password-Keeps id p = search (keeps_rules, demand-Keeps)

  gate_domain-Keeps : (id : String) (d : Option ℕ) → Keeps P (gate_domain id d)
  unfolding gate_domain
  gate_domain-Keeps id none = search keeps_rules
  gate_domain-Keeps id (some d) = search (keeps_rules, Keeps-query, demand-Keeps)

  pub validate_url_gating-Keeps :
      (id : String) (fields : GatedFields) → Keeps P (validate_url_gating id fields)
  unfolding validate_url_gating
  validate_url_gating-Keeps id fields =
      search
        (keeps_rules, gate_alias-Keeps, gate_expiry-Keeps, gate_password-Keeps, gate_domain-Keeps)
        depth 8

  check_count-Keeps : (id name : String) (n : ℕ) → Keeps P (check_count id name n)
  unfolding check_count
  check_count-Keeps id name n = search (keeps_rules, Keeps-query)

  check_below-Keeps : (id name : String) (n : Option ℕ) → Keeps P (check_below id name n)
  unfolding check_below
  check_below-Keeps id name none = search keeps_rules
  check_below-Keeps id name (some n) = check_count-Keeps id name n

  check_max-Keeps : (id name : String) (l : Option PlanLimit) → Keeps P (check_max id name l)
  unfolding check_max
  check_max-Keeps id name none = search keeps_rules
  check_max-Keeps id name (some l) = check_below-Keeps id name l.max_urls

  pub check_url_limit-Keeps : (id : String) → Keeps P (check_url_limit id)
  unfolding check_url_limit
  check_url_limit-Keeps id = search (keeps_rules, get_active_subscription-Keeps, check_max-Keeps)
