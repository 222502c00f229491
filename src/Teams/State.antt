-- ===== src/Teams/State.antt =====
-- The teams of prisma/schema.prisma, beside the tables that plans are read from.
use url_shortner_system_desi.Common.{ℕ, String, Option, none, some, List, Action, ok, err}
use url_shortner_system_desi.State.{World}
use url_shortner_system_desi.Access.{TeamRole, InviteStatus}

pub record Team : Type 0 where
  pub id : String
  pub name : String
  pub owner_id : String

pub record Membership : Type 0 where
  pub id : String
  pub team_id : String
  pub user_id : String
  pub role : TeamRole
  pub status : InviteStatus
  pub joined_at : Option ℕ

-- `drawn` counts the identifiers that the database has made
pub record Roster : Type 0 where
  pub world : World
  pub drawn : ℕ
  pub teams : List Team
  pub memberships : List Membership

abbrev with_world {ℓ} : {A : Type ℓ} → Roster → A × World → A × Roster
with_world s (a, w) = (a, record s { world = w })

-- what another service does to its tables
abbrev pub on_world {ℓ} : {A : Type ℓ} → Action World A → Action Roster A
on_world m s = with_world s (m s.world)

-- a query meets the error of the database
abbrev pub look {ℓ} : {A : Type ℓ} → (Roster → A) → Action Roster A
look f s = elim s.world.db_error [ none ↦ (ok (f s), s) | some e ↦ (err e, s) ]
