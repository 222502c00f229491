-- ===== src/Analytics/Window.antt =====
-- `analyticsWindow` and `fillTimeBuckets`. `Date.prototype.toISOString` is a parameter.
use url_shortner_system_desi.Common.{
  ℕ, zero, suc, ◌+◌, ◌-◌, ◌*◌, ◌/◌, max, String, Option, none, some, List, [], ◌∷◌, leb, ◌==◌,
  if◌then◌else◌, str_eq, take_chars, drop_chars,
}

abbrev pub day_ms : ℕ
day_ms = 86400000

abbrev pub hour_ms : ℕ
hour_ms = 3600000

-- an unknown range is seven days
unfoldable pub duration_of : String → ℕ
duration_of range =
    if str_eq range "24h"
    then 86400000
    else if str_eq range "7d"
    then 604800000
    else if str_eq range "30d"
    then 2592000000
    else 604800000

pub record TimeWindow : Type 0 where
  pub start : ℕ
  pub end : ℕ

abbrev pub or_epoch : Option ℕ → ℕ
or_epoch none = 0
or_epoch (some t) = t

abbrev pub range_or_week : Option String → String
range_or_week none = "7d"
range_or_week (some range) = range

-- no date is before the epoch
unfoldable pub analytics_window : Option String → Option ℕ → ℕ → TimeWindow
unfolding duration_of
analytics_window range cutoff now = record {
  start = max (now - duration_of (range_or_week range)) (or_epoch cutoff);
  end = now;
}

-- a row of the query; a sum of no rows is null
pub record BucketRow : Type 0 where
  pub bucket : ℕ
  pub clicks : Option ℕ
  pub unique : Option ℕ
  pub bots : Option ℕ

pub record Bucket : Type 0 where
  pub timestamp : String
  pub label : String
  pub clicks : ℕ
  pub unique : ℕ
  pub bots : ℕ

abbrev pub or_none : Option ℕ → ℕ
or_none none = 0
or_none (some n) = n

abbrev pub step_of : String → ℕ
step_of range = if str_eq range "24h" then hour_ms else day_ms

abbrev pub floor_to : ℕ → ℕ → ℕ
floor_to step t = t / step * step

-- `Map.get` after the rows were put in order: the last row of a bucket counts
unfoldable pub row_at : ℕ → ℕ → List BucketRow → Option BucketRow
row_at step time [] = none
row_at step time (r ∷ rows) = elim (row_at step time rows) [
  | none ↦ if floor_to step r.bucket == time then some r else none
  | some later ↦ some later
]

module _ (iso : ℕ → String) (range : String) where
  abbrev pub label_of : ℕ → String
  label_of time =
      if str_eq range "24h"
      then take_chars 5 (drop_chars 11 (iso time))
      else take_chars 5 (drop_chars 5 (iso time))

  abbrev pub shown : ℕ → Option BucketRow → Bucket
  shown time none = record {
    timestamp = iso time;
    label = label_of time;
    clicks = 0;
    unique = 0;
    bots = 0;
  }
  shown time (some r) = record {
    timestamp = iso time;
    label = label_of time;
    clicks = or_none r.clicks;
    unique = or_none r.unique;
    bots = or_none r.bots;
  }

  abbrev pub bucket_at : List BucketRow → ℕ → Bucket
  bucket_at rows time = shown time (row_at (step_of range) time rows)

  -- `for (let time = …; time <= last; time += step)`, with fuel
  unfoldable pub fill : ℕ → List BucketRow → ℕ → ℕ → List Bucket
  unfolding row_at
  fill zero rows time last = []
  fill (suc fuel) rows time last =
      let rest = fill fuel rows (time + step_of range) last in
      if leb time last then bucket_at rows time ∷ rest else []

  unfoldable pub fill_time_buckets : List BucketRow → ℕ → ℕ → List Bucket
  unfolding fill
  fill_time_buckets rows start end =
      fill (end + 1) rows (floor_to (step_of range) start) (floor_to (step_of range) end)
