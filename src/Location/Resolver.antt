-- ===== src/Location/Resolver.antt =====
-- `createLocationResolver`: a bounded cache in the order of use, oldest first.
use url_shortner_system_desi.Common.{
  ℕ, ◌+◌, ◌*◌, min, String, Bool, false, ◌&&◌, Option, none, some, List, [], ◌∷◌, Dict, leb, ltb,
  if◌then◌else◌, length, lookup, insert, erase, nonempty,
}
use url_shortner_system_desi.Location.Addresses.{normalize_ip_address, is_public_ip_address}

-- a number of the database, in millionths, without its sign, or one that is not finite
pub data Coordinate : Type 0 where
  millionths : Bool → ℕ → Coordinate
  not_finite : Coordinate

-- what `geoip.lookup` found
pub record Found : Type 0 where
  pub country : Option String
  pub region : Option String
  pub city : Option String
  pub timezone : Option String
  pub ll : Option (List Coordinate)

pub record Location : Type 0 where
  pub country : Option String
  pub region : Option String
  pub city : Option String
  pub timezone : Option String
  pub ll : Option (List Coordinate)

abbrev pub is_within : ℕ → Coordinate → Bool
is_within degrees (millionths negative n) = leb n (degrees * 1000000)
is_within degrees not_finite = false

abbrev pub is_position : List Coordinate → Bool
is_position (lat ∷ long ∷ []) = is_within 90 lat && is_within 180 long
is_position _ = false

abbrev pub checked_ll : Option (List Coordinate) → Option (List Coordinate)
checked_ll none = none
checked_ll (some ll) = if is_position ll then some ll else none

unfoldable pub location_of : Found → Location
location_of f = record {
  country = nonempty f.country;
  region = nonempty f.region;
  city = nonempty f.city;
  timezone = nonempty f.timezone;
  ll = checked_ll f.ll;
}

-- a lookup that finds nothing and one that throws end alike
pub data Lookup : Type 0 where
  found : Found → Lookup
  missing failed : Lookup

unfoldable pub result_of : Lookup → Option Location
unfolding location_of
result_of (found f) = some (location_of f)
result_of missing = none
result_of failed = none

pub record LocationEntry : Type 0 where
  pub value : Option Location
  pub expires : ℕ

abbrev pub Cached : Type 0
Cached = Dict LocationEntry

-- `if (cache.size > maxEntries) cache.delete(cache.keys().next().value)`
unfoldable pub evict : ℕ → Cached → Cached
evict max_entries [] = []
evict max_entries (e ∷ c) = if ltb max_entries (length (e ∷ c)) then c else e ∷ c

abbrev pub entry_ttl : ℕ → Option Location → ℕ
entry_ttl ttl none = min ttl 300000
entry_ttl ttl (some l) = ttl

-- `geo` is `geoip.lookup`, `is_ip` is `net.isIP`
module _ (is_ip : String → ℕ) (geo : String → Lookup) (max_entries ttl : ℕ) where
  unfoldable pub resolve_miss : ℕ → String → Cached → Option Location × Cached
  unfolding evict result_of
  resolve_miss now ip cache =
      let value = result_of (geo ip) in
      (
        value,
        evict max_entries (
            insert ip (record { value = value; expires = now + entry_ttl ttl value })
              (erase ip cache)),
      )

  -- a live entry moves to the end
  unfoldable pub resolve_hit : ℕ → String → LocationEntry → Cached → Option Location × Cached
  unfolding resolve_miss
  resolve_hit now ip e cache =
      if ltb now e.expires
      then (e.value, insert ip e (erase ip cache))
      else resolve_miss now ip cache

  unfoldable pub use_entry : ℕ → String → Option LocationEntry → Cached → Option Location × Cached
  unfolding resolve_hit
  use_entry now ip none cache = resolve_miss now ip cache
  use_entry now ip (some e) cache = resolve_hit now ip e cache

  unfoldable pub resolve_ip : ℕ → Option String → Cached → Option Location × Cached
  unfolding use_entry
  resolve_ip now none cache = (none, cache)
  resolve_ip now (some ip) cache = use_entry now ip (lookup ip cache) cache

  -- the clock stands still during a call
  unfoldable pub resolve : ℕ → Option String → Cached → Option Location × Cached
  unfolding resolve_ip
  resolve now value cache =
      if is_public_ip_address is_ip (normalize_ip_address is_ip value)
      then resolve_ip now (normalize_ip_address is_ip value) cache
      else (none, cache)
