-- ===== src/Clicks/Grace.antt =====
-- What a run over the ended subscriptions leaves behind.
use url_shortner_system_desi.Common.{ℕ, Bool, true, not, ◌&&◌, ◌||◌, List, ltb, ◌≡◌, ◌⊎◌}
use url_shortner_system_desi.State.{Subscription}
use url_shortner_system_desi.Clicks.Scan.{IsIn}
use url_shortner_system_desi.Clicks.Dunning.{is_past_due, is_expired, grace_end}

-- A subscription that has ended is closed, or past due within its days of grace.
abbrev pub is_settled : ℕ → Subscription → Bool
is_settled now s =
    not (is_expired now s) || (is_past_due s.status && ltb now (grace_end s.current_period_end))

-- A row is settled, or its turn is still to come.
abbrev Pending : ℕ → List Subscription → Subscription → Type 0
Pending now todo s = (is_settled now s ≡ true) ⊎ IsIn s todo
