-- ===== src/Analytics/Buckets.antt =====
-- The chart's buckets: one for each step of the range, in order.
use url_shortner_system_desi.Common.{
  ap, ℕ, zero, suc, ◌+◌, ◌-◌, ◌*◌, ◌/◌, ◌≤◌, ◌<◌, String, true, false, some, List, [], ◌∷◌, arith,
  ◌≡◌, refl, length, get_elem?, leb,
}
use url_shortner_system_desi.Analytics.Window.{
  BucketRow, Bucket, bucket_at, fill, fill_time_buckets, step_of,
}

module _ (iso : ℕ → String) (range : String) (rows : List BucketRow) where
  -- `n` buckets from the step number `a` on
  abbrev row_of_buckets : ℕ → ℕ → List Bucket
  row_of_buckets zero a = []
  row_of_buckets (suc n) a = bucket_at iso range rows (a * step_of range) ∷ row_of_buckets n (a + 1)

  step_pos : 1 ≤ step_of range
  step_pos = ground arith

  next_step : (a : ℕ) → a * step_of range + step_of range ≡ (a + 1) * step_of range
  next_step a = grind arith

  steps_mono : (a b : ℕ) → a ≤ b → a * step_of range ≤ b * step_of range
  steps_mono a b h = grind arith

  steps_strict : (a b : ℕ) → b < a → b * step_of range < a * step_of range
  steps_strict a b h =
      let more = steps_mono (b + 1) a (omega arith) in omega (arith, more, next_step b, step_pos)

  fill-rounds :
      (fuel a n b : ℕ)
      → b + 1 ≡ a + n
      → n ≤ fuel
      → fill iso range fuel rows (a * step_of range) (b * step_of range) ≡ row_of_buckets n a
  unfolding fill
  fill-rounds zero a zero b e h = refl
  fill-rounds zero a (suc n) b e h = absurd (omega arith)
  fill-rounds (suc fuel) a zero b e h =
      let over : leb (a * step_of range) (b * step_of range) ≡ false =
        let late = steps_strict a b (omega arith) in ground arith in
      rw over refl
  fill-rounds (suc fuel) a (suc n) b e h =
      let under : leb (a * step_of range) (b * step_of range) ≡ true =
        let early = steps_mono a b (omega arith) in ground arith in
      rw (under, next_step a)
        (ap (◌∷◌ (bucket_at iso range rows (a * step_of range)))
          (fill-rounds fuel (a + 1) n b (omega arith) (omega arith)))

  length-row_of_buckets : (n a : ℕ) → length (row_of_buckets n a) ≡ n
  length-row_of_buckets zero a = refl
  length-row_of_buckets (suc n) a = ap suc (length-row_of_buckets n (a + 1))

  get_elem?-row_of_buckets :
      (n a i : ℕ)
      → i < n
      → get_elem? (row_of_buckets n a) i ≡ some (bucket_at iso range rows ((a + i) * step_of range))
  get_elem?-row_of_buckets zero a i h = absurd (omega arith)
  get_elem?-row_of_buckets (suc n) a zero h = let same : a + 0 ≡ a = omega arith in rw same refl
  get_elem?-row_of_buckets (suc n) a (suc i) h =
      let same : a + 1 + i ≡ a + suc i = omega arith in
      rw (← same) (get_elem?-row_of_buckets n (a + 1) i (omega arith))

  -- The loop ends: for a range that does not end before it starts it gives one bucket for each hour
  -- or day from that of the start to that of the end, both included, and the bucket at each place
  -- is the one of its hour or day, with the counts of its row.
  pub fill_time_buckets_lem :
      (start end i : ℕ)
      → start ≤ end
      → i ≤ end / step_of range - start / step_of range
      → (length (fill_time_buckets iso range rows start end)
          ≡ end / step_of range - start / step_of range + 1)
        × (get_elem? (fill_time_buckets iso range rows start end) i
            ≡ some (bucket_at iso range rows ((start / step_of range + i) * step_of range)))
  unfolding fill_time_buckets
  fill_time_buckets_lem start end i h lt =
      let a = start / step_of range in
      let b = end / step_of range in
      let ordered : a ≤ b = ground arith in
      let small : b ≤ end = ground arith in
      let rounds = fill-rounds (end + 1) a (b - a + 1) b (omega arith) (omega arith) in
      rw rounds (
        length-row_of_buckets (b - a + 1) a,
        get_elem?-row_of_buckets (b - a + 1) a i (omega arith),
      )
