-- ===== src/Clicks/Rollups.antt =====
-- The rollups against the table of clicks.
use url_shortner_system_desi.Common.{
  ap, ap, Bool-cases, Bool-cases, ℕ, ◌+◌, String, Bool, not, ◌&&◌, Option, none, some, List, [],
  ◌∷◌, ◌==◌, ◌≡◌, str_eq, find, count,
}
use url_shortner_system_desi.Location.{Location}
use url_shortner_system_desi.Links.{ClickJob}
use url_shortner_system_desi.Clicks.Classify.{ParsedAgent}
use url_shortner_system_desi.Clicks.Ingest.{
  ClickRow, Rollup, Ingest, hour_of, day_of, is_rollup_of, one_if, new_rollup, raised,
  process_click_event,
}

-- What a rollup has to say: the clicks of people, those that were unique, and those of bots.
pub record Totals : Type 0 where
  pub people : ℕ
  pub unique : ℕ
  pub bots : ℕ

abbrev pub totals_of : Option Rollup → Totals
totals_of none = record { people = 0; unique = 0; bots = 0 }
totals_of (some r) = record {
  people = r.total_clicks;
  unique = r.unique_clicks;
  bots = r.bot_clicks;
}

abbrev pub stored_totals : String → ℕ → List Rollup → Totals
stored_totals url_id bucket rs = totals_of (find (is_rollup_of url_id bucket) rs)

abbrev pub is_click_of : (ℕ → ℕ) → String → ℕ → ClickRow → Bool
is_click_of bucket_of url_id bucket c = str_eq c.url_id url_id && bucket_of c.clicked_at == bucket

abbrev pub counted_totals : (ℕ → ℕ) → String → ℕ → List ClickRow → Totals
counted_totals bucket_of url_id bucket cs = record {
  people = count (λ c. is_click_of bucket_of url_id bucket c && not c.is_bot) cs;
  unique = count (λ c. is_click_of bucket_of url_id bucket c && (not c.is_bot && c.is_unique)) cs;
  bots = count (λ c. is_click_of bucket_of url_id bucket c && c.is_bot) cs;
}

-- The rollups say of every link and bucket what the table of clicks says.
abbrev pub Tallies : (ℕ → ℕ) → List Rollup → List ClickRow → Type 0
Tallies bucket_of rs cs =
    (url_id : String) (bucket : ℕ)
    → stored_totals url_id bucket rs ≡ counted_totals bucket_of url_id bucket cs

abbrev merged : ClickRow → ℕ → Option Rollup → Rollup
merged c b none = new_rollup c b
merged c b (some r) = raised c r

abbrev raised_totals : ClickRow → Totals → Totals
raised_totals c t = record {
  people = t.people + one_if (not c.is_bot);
  unique = t.unique + one_if (not c.is_bot && c.is_unique);
  bots = t.bots + one_if c.is_bot;
}

abbrev pub AreTallied : {Sketch : Type 0} → Ingest Sketch → Type 0
AreTallied s = Tallies hour_of s.hourly s.clicks × Tallies day_of s.daily s.clicks

module _ {Sketch : Type 0} where
  -- two states with the same tables
  record SameTables (s t : Ingest Sketch) : Type 0 where
    clicks : s.clicks ≡ t.clicks
    hourly : s.hourly ≡ t.hourly
    daily : s.daily ≡ t.daily

module _ {Sketch : Type 0} (parse : String → ParsedAgent) (host_of : String → Option String)
    (locate : String → Option Location) (digest : String → String) (iso_day : ℕ → String)
    (pf_empty : Sketch) (pf_add : String → Sketch → Bool × Sketch) where
  unfoldable pub process_all : List ClickJob → Ingest Sketch → Ingest Sketch
  process_all [] s = s
  process_all (job ∷ jobs) s =
      process_all jobs
        (process_click_event parse host_of locate digest iso_day pf_empty pf_add job s)
