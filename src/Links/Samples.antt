-- ===== src/Links/Samples.antt =====
-- A concrete state for the tests and the witnesses of the link service.
use url_shortner_system_desi.Common.{ℕ, String, true, false, none, some, [], ◌∷◌, Result, ok}
use url_shortner_system_desi.State.{User, user, Url, PlanLimit, World, active, monthly}
use url_shortner_system_desi.Links.{Config, NewLink}

abbrev pub config : Config
config = record { base_url = "https://s.in"; client_url = "https://app"; cache_ttl = 3600 }

abbrev pub limits : PlanLimit
limits = record {
  max_urls = some 3;
  analytics_retention_days = some 30;
  custom_alias_allowed = true;
  custom_domain_allowed = false;
  custom_expiry_allowed = true;
  qr_code_allowed = true;
  password_protected_links = false;
  geo_analytics = false;
  device_browser_analytics = false;
  utm_builder = false;
  api_access = false;
  csv_export = false;
  bulk_url_creation = true;
  webhooks_allowed = false;
  team_members_allowed = none;
  api_rate_limit_per_min = none;
  priority_support = false;
}

abbrev pub free_limits : PlanLimit
free_limits = record limits { custom_alias_allowed = false; custom_expiry_allowed = false }

abbrev pub ann : User
ann = record { id = "ann"; email = "ann@x.in"; role = user }

abbrev pub bob : User
bob = record { id = "bob"; email = "bob@x.in"; role = user }

abbrev pub link_of_ann : Url
link_of_ann = record {
  id = 1;
  short_code = "promo";
  long_url = "https://a.example/";
  user_id = some "ann";
  custom_alias = some true;
  is_active = some true;
  expires_at = none;
  created_at = 5;
  last_checked_at = none;
  is_alive = some true;
  health_check_failures = 0;
  password_hash = none;
  custom_domain_id = none;
}

abbrev pub world : World
world = record {
  now = 1000;
  db_error = none;
  urls = link_of_ann ∷ [];
  next_url_id = 2;
  clicks = [];
  users = ann ∷ bob ∷ [];
  plans =
      record { id = "p1"; key = "pro"; name = "Pro"; is_active = true; limit = some limits }
      ∷ record {
        id = "p0";
        key = "free";
        name = "Free";
        is_active = true;
        limit = some free_limits;
      }
      ∷ [];
  subscriptions =
      record {
        id = "s1";
        user_id = "ann";
        plan_id = "p1";
        billing_cycle = monthly;
        status = active;
        started_at = 1;
        current_period_end = none;
        cancel_at_period_end = false;
        canceled_at = none;
        external_subscription_id = none;
      }
      ∷ [];
  domains = [];
  redis_ready = true;
  redis_fails = false;
  url_cache = [];
  plan_cache = [];
}

abbrev pub hash : String → String
hash p = "hashed"

abbrev pub codes_of : ℕ → Result String
codes_of i = ok "a1B2c3D"

abbrev pub sale : NewLink
sale = record {
  long_url = "https://b.example/";
  custom_alias = some "sale";
  expires_at = none;
  password = none;
  custom_domain_id = none;
}
