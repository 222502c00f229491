-- ===== src/Auth/State.antt =====
-- The tables of users, refresh tokens and login events, those of plans and subscriptions, which a new
-- account writes, and the Redis keys of the one-time codes and of the second factor.
use url_shortner_system_desi.Common.{
  ℕ, ◌+◌, ◌*◌, String, Bool, Option, none, some, List, Dict, lookup, insert, leb, if◌then◌else◌,
}
use url_shortner_system_desi.State.{Role, Plan, Subscription}

pub record Account : Type 0 where
  pub id : String
  pub name : String
  pub email : String
  pub password_hash : Option String
  pub role : Role
  pub email_verified : Bool
  pub token_version : ℕ
  pub two_factor_enabled : Bool
  pub two_factor_secret : Option String
  pub two_factor_backup_codes : Option (List String)
  pub must_change_password : Bool

-- The columns `device`, `ip`, `browser`, `os` and `location` take no part in any decision.
pub record RefreshToken : Type 0 where
  pub id : ℕ
  pub user_id : String
  pub token_hash : String
  pub expires_at : ℕ
  pub revoked : Bool

pub record LoginEvent : Type 0 where
  pub user_id : Option String
  pub success : Bool
  pub reason : String
  pub risk_level : String

-- a Redis value under a key with a time to live
pub record Kept (A : Type 0) : Type 0 where
  pub value : A
  pub expires : ℕ

pub record Server : Type 0 where
  pub now : ℕ
  pub accounts : List Account
  pub tokens : List RefreshToken
  pub next_token_id : ℕ
  pub events : List LoginEvent
  -- `purpose:userId`, `otp_attempts:…`, `otp_resend:…` and `otp_resend_count:…`
  pub otps : Dict (Kept String)
  pub attempts : Dict (Kept ℕ)
  pub cooldowns : Dict (Kept String)
  pub resend_counts : Dict (Kept ℕ)
  -- `2fa_setup:userId`
  pub pending_secrets : Dict (Kept String)
  pub plans : List Plan
  pub subscriptions : List Subscription

-- GET: a key is gone when its time to live is over
abbrev pub alive : {A : Type 0} → ℕ → Option (Kept A) → Option A
alive now none = none
alive now (some k) = if leb k.expires now then none else some k.value

abbrev pub redis_get : {A : Type 0} → ℕ → String → Dict (Kept A) → Option A
redis_get now key d = alive now (lookup key d)

-- SET key value EX seconds
abbrev pub redis_set : {A : Type 0} → ℕ → String → A → ℕ → Dict (Kept A) → Dict (Kept A)
redis_set now key v seconds d = insert key (record { value = v; expires = now + seconds * 1000 }) d

abbrev pub or_zero : Option ℕ → ℕ
or_zero none = 0
or_zero (some n) = n

-- INCR and then EXPIRE key seconds
abbrev pub redis_count : ℕ → String → ℕ → Dict (Kept ℕ) → Dict (Kept ℕ)
redis_count now key seconds d = redis_set now key (or_zero (redis_get now key d) + 1) seconds d
