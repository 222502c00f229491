-- ===== src/Billing/Period.antt =====
-- `periodEnd` of services/billingPolicy.js, on the UTC fields of a date. `setUTCMonth` carries into
-- the year, and `Date.UTC(y, m + 1, 0)` is the last day of month `m`.
use url_shortner_system_desi.Common.{
  ℕ, ◌+◌, ◌*◌, ◌/◌, ◌%◌, ◌≤◌, ◌<◌, min, Bool, not, ◌&&◌, ◌||◌, Option, none, some, Result, ok, err,
  app_error, ◌==◌, if◌then◌else◌, arith, ◌≡◌, ◌⊎◌, refl,
}
use url_shortner_system_desi.State.{BillingCycle, monthly, quarterly, yearly}

-- `month` counts from 0; `ms` is the time of the day
pub record UtcDate : Type 0 where
  pub year : ℕ
  pub month : ℕ
  pub day : ℕ
  pub ms : ℕ

abbrev pub is_leap : ℕ → Bool
is_leap y = y % 4 == 0 && (not (y % 100 == 0) || y % 400 == 0)

unfoldable pub last_day : ℕ → ℕ → ℕ
last_day y m =
    if m == 1
    then (if is_leap y then 29 else 28)
    else if m == 3 || m == 5 || m == 8 || m == 10
    then 30
    else 31

abbrev pub cycles : BillingCycle → ℕ
cycles monthly = 1
cycles quarterly = 3
cycles yearly = 12

-- the date on the first, moved on by some months
abbrev pub on_first : UtcDate → ℕ → UtcDate
on_first d n = record d { year = d.year + (d.month + n) / 12; month = (d.month + n) % 12; day = 1 }

abbrev pub clamped : ℕ → UtcDate → UtcDate
clamped day d = record d { day = min day (last_day d.year d.month) }

-- `none` is a cycle that is none of the three
unfoldable pub period_end : UtcDate → Option BillingCycle → Result UtcDate
period_end start none = err (app_error "Invalid billing cycle." 400)
period_end start (some cycle) = ok (clamped start.day (on_first start (cycles cycle)))

abbrev pub IsDate : UtcDate → Type 0
IsDate d = (d.month ≤ 11) × (1 ≤ d.day) × (d.day ≤ last_day d.year d.month)

abbrev pub month_index : UtcDate → ℕ
month_index d = d.year * 12 + d.month

end_facts :
    (start end : UtcDate) (cycle : BillingCycle)
    → IsDate start
    → period_end start (some cycle) ≡ ok end
    → IsDate end
      × (month_index end ≡ month_index start + cycles cycle)
      × ((end.day ≡ start.day) ⊎ ((end.day ≡ last_day end.year end.month) × (end.day < start.day)))
      × (end.ms ≡ start.ms)
unfolding period_end last_day
end_facts start end monthly valid done = ground arith
end_facts start end quarterly valid done = ground arith
end_facts start end yearly valid done = ground arith

-- From a date of the calendar, every cycle gives a period that ends on a date of the calendar, at
-- the same time of day and as many months later as the cycle has: on the same day of the month, or
-- on the last day of a month that is too short for it.
pub period_end_lem :
    (start : UtcDate) (cycle : BillingCycle)
    → IsDate start
    → (end : UtcDate) × (period_end start (some cycle) ≡ ok end)
      × IsDate end
      × (month_index end ≡ month_index start + cycles cycle)
      × ((end.day ≡ start.day) ⊎ ((end.day ≡ last_day end.year end.month) × (end.day < start.day)))
      × (end.ms ≡ start.ms)
unfolding period_end
period_end_lem start cycle valid =
    let end = clamped start.day (on_first start (cycles cycle)) in
    let f = end_facts start end cycle valid refl in (end, refl, f.0, f.1, f.2, f.3)
