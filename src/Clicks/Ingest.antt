-- ===== src/Clicks/Ingest.antt =====
-- `processClickEvent`. PostgreSQL answers throughout. A row's `url_id` is the decimal text of its
-- number. A column that repeats another one, such as `platform`, is in the model once.
use url_shortner_system_desi.Common.{
  ℕ, ◌+◌, ◌*◌, ◌/◌, String, Bool, true, false, not, ◌&&◌, ◌||◌, Option, none, some, List, [], ◌∷◌,
  ◌++◌, Dict, ltb, ◌==◌, if◌then◌else◌, str_eq, insert, lookup, concat, get_elem?, nonempty,
  show_nat, is_empty, select,
}
use url_shortner_system_desi.Auth.{Kept, redis_get, redis_set}
use url_shortner_system_desi.Location.{Location, Coordinate}
use url_shortner_system_desi.Links.{ClickJob}
use url_shortner_system_desi.Clicks.Classify.{
  ParsedAgent, client_of, referrer_host, is_user_agent_bot, visitor_key, or_word,
}

pub record ClickRow : Type 0 where
  pub url_id : String
  pub visitor_id : String
  pub ip_address : String
  pub clicked_at : ℕ
  pub browser : String
  pub browser_version : String
  pub operating_system : String
  pub os_version : String
  pub device_type : String
  pub device_name : String
  pub user_agent : String
  pub country : String
  pub state : String
  pub city : String
  pub latitude : Option Coordinate
  pub longitude : Option Coordinate
  pub timezone : String
  pub referrer : String
  pub referer_host : String
  pub is_qr_scan : Bool
  pub is_unique : Bool
  pub is_bot : Bool
  pub session_id : Option String

-- a row of `UrlStatsHourly` or of `UrlStatsDaily`
pub record Rollup : Type 0 where
  pub url_id : String
  pub bucket : ℕ
  pub total_clicks : ℕ
  pub unique_clicks : ℕ
  pub bot_clicks : ℕ
  pub top_country : String
  pub top_referrer : String
  pub top_device : String

pub record Tick : Type 0 where
  pub url_id : String
  pub country : String
  pub device : String
  pub timestamp : ℕ

-- a cached overview of a link
pub record Overview : Type 0 where
  pub url_id : String
  pub range : String

-- `Sketch` is what Redis keeps for a HyperLogLog.
pub record Ingest (Sketch : Type 0) : Type 0 where
  pub now : ℕ
  pub redis_fails : Bool
  pub rates : Dict (Kept ℕ)
  pub visitors : Dict (Kept Sketch)
  pub minutes : Dict (Kept ℕ)
  pub ticks : List Tick
  pub overviews : List Overview
  pub clicks : List ClickRow
  pub hourly : List Rollup
  pub daily : List Rollup

abbrev pub expires_of : Option (Kept ℕ) → ℕ
expires_of none = 0
expires_of (some k) = k.expires

-- INCR, then EXPIRE where the counter is new: its reply and the counters
unfoldable pub redis_incr : ℕ → String → ℕ → Dict (Kept ℕ) → ℕ × Dict (Kept ℕ)
redis_incr now key seconds d = elim (redis_get now key d) [
  | none ↦ (1, redis_set now key 1 seconds d)
  | some n ↦ (n + 1, insert key (record { value = n + 1; expires = expires_of (lookup key d) }) d)
]

abbrev pub hour_of : ℕ → ℕ
hour_of t = t / 3600000 * 3600000

abbrev pub day_of : ℕ → ℕ
day_of t = t / 86400000 * 86400000

abbrev pub one_if : Bool → ℕ
one_if true = 1
one_if false = 0

abbrev pub is_known : String → Bool
is_known word = not (str_eq word "Unknown")

abbrev pub is_source : String → Bool
is_source host = not (str_eq host "Direct") && not (str_eq host "Unknown")

abbrev pub is_rollup_of : String → ℕ → Rollup → Bool
is_rollup_of url_id bucket r = str_eq r.url_id url_id && r.bucket == bucket

abbrev pub new_rollup : ClickRow → ℕ → Rollup
new_rollup c bucket = record {
  url_id = c.url_id;
  bucket = bucket;
  total_clicks = one_if (not c.is_bot);
  unique_clicks = one_if (not c.is_bot && c.is_unique);
  bot_clicks = one_if c.is_bot;
  top_country = c.country;
  top_referrer = c.referer_host;
  top_device = c.device_type;
}

abbrev pub raised : ClickRow → Rollup → Rollup
raised c r = record r {
  total_clicks = r.total_clicks + one_if (not c.is_bot);
  unique_clicks = r.unique_clicks + one_if (not c.is_bot && c.is_unique);
  bot_clicks = r.bot_clicks + one_if c.is_bot;
  top_country = if is_known c.country then c.country else r.top_country;
  top_referrer = if is_source c.referer_host then c.referer_host else r.top_referrer;
  top_device = if is_empty c.device_type then r.top_device else c.device_type;
}

-- INSERT … ON CONFLICT (url_id, bucket) DO UPDATE
unfoldable pub upsert : ClickRow → ℕ → List Rollup → List Rollup
upsert c bucket [] = new_rollup c bucket ∷ []
upsert c bucket (r ∷ rs) =
    if is_rollup_of c.url_id bucket r then raised c r ∷ rs else r ∷ upsert c bucket rs

-- `geo.country || "Unknown"`, where `geo` is `{}` for an unknown place
abbrev pub place_of : (Location → Option String) → Option Location → String
place_of field none = "Unknown"
place_of field (some l) = or_word (field l) "Unknown"

abbrev pub coordinate_at : ℕ → Option Location → Option Coordinate
coordinate_at i none = none
coordinate_at i (some l) = elim l.ll [ none ↦ none | some ll ↦ get_elem? ll i ]

abbrev rate_key : ClickJob → String
rate_key job = concat ("rate:" ∷ job.ip ∷ ":" ∷ job.url_id ∷ [])

abbrev minute_key : ClickJob → ℕ → String
minute_key job now = concat ("rt_clicks:" ∷ job.url_id ∷ ":" ∷ show_nat (now / 60000) ∷ [])

module _ {Sketch : Type 0} where
  -- `checkRateLimitBot`
  unfoldable pub check_rate_limit_bot : ClickJob → Ingest Sketch → Bool × Ingest Sketch
  unfolding redis_incr
  check_rate_limit_bot job s =
      let (n, rates) = redis_incr s.now (rate_key job) 10 s.rates in
      if s.redis_fails then (false, s) else (ltb 10 n, record s { rates = rates })

  -- the three writes to PostgreSQL
  unfoldable pub write_click : ClickRow → Ingest Sketch → Ingest Sketch
  unfolding upsert
  write_click c s = record s {
    clicks = s.clicks ++ c ∷ [];
    hourly = upsert c (hour_of c.clicked_at) s.hourly;
    daily = upsert c (day_of c.clicked_at) s.daily;
  }

  -- the live counter, the broadcast and the overviews that are dropped
  unfoldable pub announce : ClickJob → ClickRow → Ingest Sketch → Ingest Sketch
  unfolding redis_incr
  announce job c s = if s.redis_fails then s else record s {
    minutes = (redis_incr s.now (minute_key job s.now) 600 s.minutes).1;
    ticks =
        s.ticks
        ++ record {
          url_id = c.url_id;
          country = c.country;
          device = c.device_type;
          timestamp = c.clicked_at;
        }
          ∷ [];
    overviews = select (λ (o : Overview). not (str_eq o.url_id c.url_id)) s.overviews;
  }

-- `parse` is `UAParser`, `host_of` the host of a URL, `locate` the resolver of locations, `digest`
-- is SHA-256 and `iso_day` the first ten characters of `toISOString`. `pf_add` is PFADD: whether the
-- sketch changed, and the sketch.
module _ {Sketch : Type 0} (parse : String → ParsedAgent) (host_of : String → Option String)
    (locate : String → Option Location) (digest : String → String) (iso_day : ℕ → String)
    (pf_empty : Sketch) (pf_add : String → Sketch → Bool × Sketch) where
  abbrev hll_key : ClickJob → String
  hll_key job = concat ("hll:" ∷ job.url_id ∷ ":" ∷ iso_day job.timestamp ∷ [])

  abbrev pub visitor_of : ClickJob → String
  visitor_of job = digest (visitor_key (some job.visitor_id) job.session_id job.ip job.user_agent)

  abbrev sketch_of : Option Sketch → Sketch
  sketch_of none = pf_empty
  sketch_of (some k) = k

  -- a first visit of the day, which also renews the key's time to live
  unfoldable pub count_visitor : ClickJob → Ingest Sketch → Bool × Ingest Sketch
  count_visitor job s =
      let (added, sketch) =
        pf_add (visitor_of job) (sketch_of (redis_get s.now (hll_key job) s.visitors)) in
      if s.redis_fails
      then (false, s)
      else if added
      then (true, record s { visitors = redis_set s.now (hll_key job) sketch 172800 s.visitors })
      else (false, s)

  unfoldable pub click_of : ClickJob → Bool → Bool → ClickRow
  unfolding client_of referrer_host is_user_agent_bot
  click_of job is_rate_bot is_unique =
      let parsed = parse job.user_agent in
      let client = client_of job.user_agent parsed in
      let geo = locate job.ip in
      record {
        url_id = job.url_id;
        visitor_id = visitor_of job;
        ip_address = job.ip;
        clicked_at = job.timestamp;
        browser = client.browser_name;
        browser_version = or_word parsed.browser_version "Unknown";
        operating_system = client.os_name;
        os_version = or_word parsed.os_version "Unknown";
        device_type = client.device_type;
        device_name = or_word parsed.device_model "Unknown";
        user_agent = job.user_agent;
        country = place_of (λ l. l.country) geo;
        state = place_of (λ l. l.region) geo;
        city = place_of (λ l. l.city) geo;
        latitude = coordinate_at 0 geo;
        longitude = coordinate_at 1 geo;
        timezone = place_of (λ l. l.timezone) geo;
        referrer = if is_empty job.referrer then "Direct" else job.referrer;
        referer_host = referrer_host host_of job.referrer job.user_agent;
        is_qr_scan = job.is_qr_scan;
        is_unique = is_unique;
        is_bot = is_user_agent_bot job.user_agent parsed || is_rate_bot;
        session_id = nonempty (some job.session_id);
      }

  unfoldable pub process_click_event : ClickJob → Ingest Sketch → Ingest Sketch
  unfolding check_rate_limit_bot count_visitor click_of write_click announce
  process_click_event job s =
      let (is_rate_bot, s1) = check_rate_limit_bot job s in
      let (is_unique, s2) = count_visitor job s1 in
      let c = click_of job is_rate_bot is_unique in announce job c (write_click c s2)
