-- ===== src/Clicks/Dunning.antt =====
-- `processBillingAndDunning`, with `invalidateSubscriptionCache` of services/planLimitService.js. A
-- day is 24 hours, as in a time zone without daylight saving; `alerts` is the `securityEmailAlerts`
-- of a user, and `new_id` the identifier that the database makes for a row.
use url_shortner_system_desi.Common.{
  ℕ, ◌+◌, ◌*◌, String, Bool, true, false, not, ◌&&◌, Option, none, some, List, [], ◌∷◌, ◌++◌, leb,
  ltb, if◌then◌else◌, any, select, update_where, str_eq, erase,
}
use url_shortner_system_desi.State.{
  World, Plan, Subscription, SubscriptionStatus, is_active_status, active, past_due, expired,
  monthly,
}
use url_shortner_system_desi.Cache.{answers}
use url_shortner_system_desi.Plans.{day, plan_by_key, is_current}

-- the subscriptions that the reminders of a renewal go to: `gte` and `lte` fail on NULL
abbrev is_between : ℕ → ℕ → Option ℕ → Bool
is_between low high none = false
is_between low high (some end) = leb low end && leb end high

unfoldable pub expiring : (String → Bool) → World → List Subscription
expiring alerts w =
    select
      (λ (s : Subscription).
        is_active_status s.status
        && (not s.cancel_at_period_end
            && (is_between (w.now + 2 * day) (w.now + 3 * day) s.current_period_end
                && alerts s.user_id)))
      w.subscriptions

-- status: { in: ["ACTIVE", "PAST_DUE"] }
abbrev pub is_open : SubscriptionStatus → Bool
is_open active = true
is_open past_due = true
is_open _ = false

abbrev pub is_past_due : SubscriptionStatus → Bool
is_past_due past_due = true
is_past_due _ = false

-- current_period_end: { lt: now }
abbrev pub has_ended : ℕ → Option ℕ → Bool
has_ended now none = false
has_ended now (some end) = ltb end now

abbrev pub is_expired : ℕ → Subscription → Bool
is_expired now s = is_open s.status && has_ended now s.current_period_end

abbrev pub is_sub : String → Subscription → Bool
is_sub id s = str_eq s.id id

-- `new Date(null)` is the epoch
abbrev pub grace_end : Option ℕ → ℕ
grace_end none = 3 * day
grace_end (some end) = end + 3 * day

abbrev pub is_newly_due : ℕ → String → Subscription → Bool
is_newly_due now id s =
    is_sub id s && (is_active_status s.status && has_ended now s.current_period_end)

abbrev pub made_past_due : Subscription → Subscription
made_past_due s = record s { status = past_due }

abbrev pub made_expired : ℕ → Subscription → Subscription
made_expired now s = record s { status = expired; canceled_at = some now }

abbrev pub free_subscription : ℕ → String → String → Plan → Subscription
free_subscription now id user_id free = record {
  id = id;
  user_id = user_id;
  plan_id = free.id;
  billing_cycle = monthly;
  status = active;
  started_at = now;
  current_period_end = none;
  cancel_at_period_end = false;
  canceled_at = none;
  external_subscription_id = none;
}

module _ (new_id : List Subscription → String) where
  -- unless the user has bought another one since the scan
  unfoldable pub grant_free : ℕ → Plan → String → List Subscription → List Subscription
  grant_free now free user_id subs =
      if any (is_current now user_id) subs
      then subs
      else subs ++ free_subscription now (new_id subs) user_id free ∷ []

  -- the transaction that reads the row again
  unfoldable pub downgrade : ℕ → Plan → Subscription → List Subscription → List Subscription
  unfolding grant_free
  downgrade now free sub subs =
      if any (λ (s : Subscription). is_sub sub.id s && is_expired now s) subs
      then grant_free now free sub.user_id (update_where (is_sub sub.id) (made_expired now) subs)
      else subs

  -- one subscription of the scan, as it was read
  unfoldable pub settle : ℕ → Plan → Subscription → List Subscription → List Subscription
  unfolding downgrade
  settle now free sub subs =
      if ltb now (grace_end sub.current_period_end)
      then if is_past_due sub.status
        then subs
        else update_where (is_newly_due now sub.id) made_past_due subs
      else downgrade now free sub subs

  unfoldable pub settle_all : ℕ → Plan → List Subscription → List Subscription → List Subscription
  unfolding settle
  settle_all now free [] subs = subs
  settle_all now free (sub ∷ rest) subs = settle_all now free rest (settle now free sub subs)

  -- what a subscription's turn leaves in the cache of plans
  abbrev pub forget_plan : World → Subscription → World
  forget_plan w sub =
      if ltb w.now (grace_end sub.current_period_end) && is_past_due sub.status
      then w
      else if answers w
      then record w { plan_cache = erase sub.user_id w.plan_cache }
      else w

  unfoldable pub forget_plans : List Subscription → World → World
  forget_plans [] w = w
  forget_plans (sub ∷ rest) w = forget_plans rest (forget_plan w sub)

  unfoldable pub settle_scanned : Option Plan → List Subscription → World → World
  unfolding settle_all forget_plans
  settle_scanned none scanned w = w
  settle_scanned (some free) scanned w =
      forget_plans scanned
        (record w { subscriptions = settle_all w.now free scanned w.subscriptions })

  -- the subscriptions that are reminded of, and the state afterwards
  unfoldable pub process_billing_and_dunning : (String → Bool) → World → List Subscription × World
  unfolding expiring settle_scanned
  process_billing_and_dunning alerts w = (
    expiring alerts w,
    settle_scanned (plan_by_key "free" w.plans) (select (is_expired w.now) w.subscriptions) w,
  )
