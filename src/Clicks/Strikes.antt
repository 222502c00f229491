-- ===== src/Clicks/Strikes.antt =====
-- A link that does not answer, over several checks of its health.
use url_shortner_system_desi.Common.{
  ℕ, String, Bool, true, false, Option, none, some, List, [], ◌∷◌, ltb, ◌≡◌,
}
use url_shortner_system_desi.State.{Url, World}
use url_shortner_system_desi.Repository.{is_true}
use url_shortner_system_desi.Clicks.Health.{checked, process_health_check}

abbrev updated : (String → Bool) → ℕ → Option Url → Url → Url
updated alive now none v = v
updated alive now (some u) v = checked now (alive u.long_url) u v

module _ (alive : String → Bool) where
  -- a run at each of the times
  unfoldable pub run_checks : List ℕ → World → World
  run_checks [] w = w
  run_checks (t ∷ ts) w = run_checks ts (process_health_check alive (record w { now = t }))

  -- A link that counts `n` failures and is shown as alive while they are under three.
  abbrev pub HasFailed : ℕ → Url → Type 0
  HasFailed n u =
      (is_true u.is_active ≡ true)
      × (alive u.long_url ≡ false)
      × (u.health_check_failures ≡ n)
      × (u.is_alive ≡ some (ltb n 3))
