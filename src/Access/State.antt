-- ===== src/Access/State.antt =====
-- The rows that access control reads and writes, and the Redis copies of account statuses.
use url_shortner_system_desi.Common.{
  ℕ, String, Bool, Option, none, some, List, Dict, Action, Error, ok, err,
}
use url_shortner_system_desi.State.{Role}
use url_shortner_system_desi.Auth.{Kept, RefreshToken}

pub data AccountStatus : Type 0 where
  active suspended banned : AccountStatus

abbrev pub is_active : AccountStatus → Bool
is_active active = Bool.true
is_active _ = Bool.false

abbrev pub same_status : AccountStatus → AccountStatus → Bool
same_status active active = Bool.true
same_status suspended suspended = Bool.true
same_status banned banned = Bool.true
same_status _ _ = Bool.false

-- the columns of `User` that access control reads
pub record Person : Type 0 where
  pub id : String
  pub email : String
  pub role : Role
  pub status : AccountStatus
  pub token_version : ℕ
  pub password_hash : Option String

pub data TeamRole : Type 0 where
  owner team_admin member : TeamRole

pub data InviteStatus : Type 0 where
  pending accepted revoked : InviteStatus

pub record TeamMember : Type 0 where
  pub team_id : String
  pub user_id : String
  pub role : TeamRole
  pub status : InviteStatus

-- `req.user`
pub record Caller : Type 0 where
  pub id : String
  pub email : String
  pub role : Role

pub record Realm : Type 0 where
  pub now : ℕ
  pub db_error : Option Error
  pub people : List Person
  pub members : List TeamMember
  pub tokens : List RefreshToken
  pub redis_ready : Bool
  pub redis_fails : Bool
  -- `status:…`
  pub statuses : Dict (Kept AccountStatus)

abbrev pub ask {ℓ} : {A : Type ℓ} → (Realm → A) → Action Realm A
ask f w = elim w.db_error [ none ↦ (ok (f w), w) | some e ↦ (err e, w) ]

abbrev pub write : (Realm → Realm) → Action Realm (Unit {0})
write f w = elim w.db_error [ none ↦ (ok tt, f w) | some e ↦ (err e, w) ]
