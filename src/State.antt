-- ===== src/State.antt =====
-- The state that the link service reads and writes: the PostgreSQL tables of prisma/schema.prisma
-- that it touches, the Redis keys under the prefixes "short:" and "plan:", and the clock.
use url_shortner_system_desi.Common.{
  ℕ, String, Bool, true, false, Option, none, some, List, Dict, Error, ok, err, Action, str_eq,
}

pub data Role : Type 0 where
  user admin : Role

abbrev pub is_admin : Role → Bool
is_admin user = false
is_admin admin = true

pub record User : Type 0 where
  pub id : String
  pub email : String
  pub role : Role

-- Times are milliseconds since the epoch.
pub record Url : Type 0 where
  pub id : ℕ
  pub short_code : String
  pub long_url : String
  pub user_id : Option String
  pub custom_alias : Option Bool
  pub is_active : Option Bool
  pub expires_at : Option ℕ
  pub created_at : ℕ
  pub last_checked_at : Option ℕ
  pub is_alive : Option Bool
  pub health_check_failures : ℕ
  pub password_hash : Option String
  pub custom_domain_id : Option ℕ

pub record Click : Type 0 where
  pub url_id : ℕ
  pub clicked_at : ℕ

pub record PlanLimit : Type 0 where
  pub max_urls : Option ℕ
  pub analytics_retention_days : Option ℕ
  pub custom_alias_allowed : Bool
  pub custom_domain_allowed : Bool
  pub custom_expiry_allowed : Bool
  pub qr_code_allowed : Bool
  pub password_protected_links : Bool
  pub geo_analytics : Bool
  pub device_browser_analytics : Bool
  pub utm_builder : Bool
  pub api_access : Bool
  pub csv_export : Bool
  pub bulk_url_creation : Bool
  pub webhooks_allowed : Bool
  pub team_members_allowed : Option ℕ
  pub api_rate_limit_per_min : Option ℕ
  pub priority_support : Bool

pub record Plan : Type 0 where
  pub id : String
  pub key : String
  pub name : String
  pub is_active : Bool
  pub limit : Option PlanLimit

pub data SubscriptionStatus : Type 0 where
  active past_due canceled expired trialing : SubscriptionStatus

abbrev pub is_active_status : SubscriptionStatus → Bool
is_active_status active = true
is_active_status _ = false

pub data BillingCycle : Type 0 where
  monthly quarterly yearly : BillingCycle

pub record Subscription : Type 0 where
  pub id : String
  pub user_id : String
  pub plan_id : String
  pub billing_cycle : BillingCycle
  pub status : SubscriptionStatus
  pub started_at : ℕ
  pub current_period_end : Option ℕ
  pub cancel_at_period_end : Bool
  pub canceled_at : Option ℕ
  pub external_subscription_id : Option String

-- a subscription joined with its plan and limits, or the object that stands in for one
pub record ActiveSubscription : Type 0 where
  pub id : String
  pub user_id : Option String
  pub plan_id : Option String
  pub plan : Option Plan
  pub billing_cycle : BillingCycle
  pub status : SubscriptionStatus
  pub started_at : Option ℕ
  pub current_period_end : Option ℕ
  pub cancel_at_period_end : Option Bool

pub record CustomDomain : Type 0 where
  pub id : ℕ
  pub user_id : String
  pub verified : Bool

-- What `getOriginalUrl` caches and returns. A field that the stored JSON lacks is `none`.
pub record CachedUrl : Type 0 where
  pub id : Option String
  pub long_url : Option String
  pub password_hash : Option String
  pub is_active : Option Bool
  pub expires_at : Option (Option ℕ)
  pub is_cache_hit : Bool

-- a stored value: JSON of such an object, or a text that is no JSON
pub data Stored : Type 0 where
  json : CachedUrl → Stored
  raw : String → Stored

pub record CacheEntry : Type 0 where
  pub stored : Stored
  pub expires : ℕ

pub record World : Type 0 where
  pub now : ℕ
  -- an error that every query meets, such as a lost connection
  pub db_error : Option Error
  pub urls : List Url
  pub next_url_id : ℕ
  pub clicks : List Click
  pub users : List User
  pub plans : List Plan
  pub subscriptions : List Subscription
  pub domains : List CustomDomain
  -- `isRedisReady()`, and whether the commands of a ready connection throw
  pub redis_ready : Bool
  pub redis_fails : Bool
  pub url_cache : Dict CacheEntry
  pub plan_cache : Dict ActiveSubscription

abbrev pub query {ℓ} : {A : Type ℓ} → (World → A) → Action World A
query f w = elim w.db_error [ none ↦ (ok (f w), w) | some e ↦ (err e, w) ]

abbrev pub execute {ℓ} : {A : Type ℓ} → Action World A → Action World A
execute m w = elim w.db_error [ none ↦ m w | some e ↦ (err e, w) ]

-- `a = b` in SQL, where NULL equals nothing
abbrev pub sql_eq : Option String → Option String → Bool
sql_eq (some a) (some b) = str_eq a b
sql_eq _ _ = false
