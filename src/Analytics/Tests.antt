-- ===== src/Analytics/Tests.antt =====
-- A day's chart.
use url_shortner_system_desi.Common.{
  ℕ, String, none, some, List, [], ◌∷◌, length, get_elem?, arith, ◌≡◌, refl,
}
use url_shortner_system_desi.Analytics.{
  BucketRow, duration_of, analytics_window, bucket_at, fill_time_buckets,
}
use url_shortner_system_desi.Analytics.Buckets.{fill_time_buckets_lem}

abbrev iso_text : ℕ → String
iso_text t = "2024-01-01T00:00:00.000Z"

abbrev one_row : List BucketRow
one_row = record { bucket = 3600000; clicks = some 4; unique = none; bots = some 1 } ∷ []

long_ago : (analytics_window (some "24h") (some 5) 7).start ≡ 5
unfolding analytics_window duration_of
long_ago = refl

fill_time_buckets_lem_example :
    (length (fill_time_buckets iso_text "24h" one_row 10 7200001) ≡ 3)
    × (get_elem? (fill_time_buckets iso_text "24h" one_row 10 7200001) 1
        ≡ some (bucket_at iso_text "24h" one_row 3600000))
fill_time_buckets_lem_example =
    fill_time_buckets_lem iso_text "24h" one_row 10 7200001 1 (omega arith) (omega arith)
