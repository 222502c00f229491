-- ===== src/Clicks/Tests.antt =====
-- The worker at concrete inputs.
use url_shortner_system_desi.Common.{
  ℕ, ◌+◌, String, Bool, true, false, Option, none, some, List, [], ◌∷◌, length, includes,
  starts_with, drop_prefix, ltb, ◌≡◌, refl,
}
use url_shortner_system_desi.Location.{Location}
use url_shortner_system_desi.Links.{ClickJob}
use url_shortner_system_desi.Links.Samples.{world, free_limits}
use url_shortner_system_desi.State.{World, Plan, Subscription, active, monthly}
use url_shortner_system_desi.Clicks.{
  ParsedAgent, label_of, expiring, settle_scanned, settle_all, settle, downgrade, grant_free,
  forget_plans, process_billing_and_dunning,
}
use url_shortner_system_desi.Clicks.Ingest.{Ingest}
use url_shortner_system_desi.Clicks.Labels.{reddit_is_twitter}

reddit_is_twitter_example : label_of "www.reddit.com" "www.reddit.com" ≡ "Twitter/X"
unfolding includes starts_with drop_prefix
reddit_is_twitter_example = reddit_is_twitter "www.reddit.com" "www.reddit.com" refl refl refl

abbrev unknown_agent : String → ParsedAgent
unknown_agent ua = record {
  device_type = none;
  device_model = none;
  browser_name = none;
  browser_version = none;
  os_name = none;
  os_version = none;
}

abbrev no_text : String → Option String
no_text s = none

abbrev nowhere : String → Option Location
nowhere ip = none

abbrev itself : String → String
itself s = s

abbrev some_day : ℕ → String
some_day t = "2024-01-01"

-- a sketch that counts its members
abbrev add_member : String → ℕ → Bool × ℕ
add_member s n = (ltb n 1, n + 1)

abbrev no_clicks : Ingest ℕ
no_clicks = record {
  now = 3600001;
  redis_fails = false;
  rates = [];
  visitors = [];
  minutes = [];
  ticks = [];
  overviews = [];
  clicks = [];
  hourly = [];
  daily = [];
}

abbrev one_job : ClickJob
one_job = record {
  url_id = "1";
  ip = "8.8.8.8";
  user_agent = "Mozilla";
  referrer = "";
  session_id = "";
  visitor_id = "v";
  is_qr_scan = false;
  timestamp = 3600001;
}

abbrev is_down : String → Bool
is_down target = false

abbrev ended : Subscription
ended = record {
  id = "s2";
  user_id = "bob";
  plan_id = "p1";
  billing_cycle = monthly;
  status = active;
  started_at = 1;
  current_period_end = some 2;
  cancel_at_period_end = false;
  canceled_at = none;
  external_subscription_id = none;
}

abbrev later : World
later = record world { now = 400000000; subscriptions = ended ∷ world.subscriptions }

abbrev free_plan : Plan
free_plan = record {
  id = "p0";
  key = "free";
  name = "Free";
  is_active = true;
  limit = some free_limits;
}

abbrev all_alerts : String → Bool
all_alerts user_id = true

abbrev next_id : List Subscription → String
next_id subs = "s3"

downgraded : length (process_billing_and_dunning next_id all_alerts later).1.subscriptions ≡ 3
unfolding process_billing_and_dunning expiring settle_scanned settle_all settle downgrade grant_free
    forget_plans
downgraded = refl
