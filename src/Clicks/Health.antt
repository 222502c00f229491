-- ===== src/Clicks/Health.antt =====
-- `checkLinkHealth` and `processHealthCheck`. A chunk's links are checked at the same time; each
-- touches its own row only, so the order does not matter.
use url_shortner_system_desi.Common.{
  ℕ, ◌+◌, String, Bool, true, false, ◌&&◌, Option, none, some, List, [], ◌∷◌, leb, ltb, ◌==◌,
  if◌then◌else◌, any, select, update_where, ◌≡◌,
}
use url_shortner_system_desi.State.{Url, World}
use url_shortner_system_desi.Repository.{is_true}

abbrev pub is_healthy : ℕ → Bool
is_healthy status = leb 200 status && ltb status 400

-- the replies to HEAD and to GET; `none` is a request that threw
unfoldable pub check_link_health : Option ℕ → Option ℕ → Bool
check_link_health (some status) get = is_healthy status
check_link_health none (some status) = is_healthy status
check_link_health none none = false

-- the row written for a link that was read as `u`
unfoldable pub checked : ℕ → Bool → Url → Url → Url
checked now true u v = record v {
  is_alive = some true;
  health_check_failures = 0;
  last_checked_at = some now;
}
checked now false u v = record v {
  is_alive = if leb 3 (u.health_check_failures + 1) then some false else u.is_alive;
  health_check_failures = u.health_check_failures + 1;
  last_checked_at = some now;
}

abbrev pub is_row : ℕ → Url → Bool
is_row id u = u.id == id

-- `alive` is what the check of a target finds
module _ (alive : String → Bool) where
  unfoldable pub check_rows : ℕ → List Url → List Url → List Url
  unfolding checked
  check_rows now [] rows = rows
  check_rows now (u ∷ us) rows =
      check_rows now us (update_where (is_row u.id) (checked now (alive u.long_url) u) rows)

  unfoldable pub process_health_check : World → World
  unfolding check_rows
  process_health_check w = record w {
    urls = check_rows w.now (select (λ (u : Url). is_true u.is_active) w.urls) w.urls;
  }

-- No two rows have the same id.
abbrev pub DistinctIds : List Url → Type 0
DistinctIds [] = Unit
DistinctIds (u ∷ us) = (any (is_row u.id) us ≡ false) × DistinctIds us
