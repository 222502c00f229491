-- ===== src/Cache.antt =====
-- services/cache.service.js: the Redis copies of links. The map `url_cache` holds the keys under the
-- prefix "short:"; the spans and counters of the telemetry have no effect on it.

use url_shortner_system_desi.Common.{
  ℕ, ◌+◌, ◌*◌, String, Bool, false, not, ◌&&◌, Option, none, some, ok, Action, leb, if◌then◌else◌,
  is_empty, lookup, insert, erase,
}
use url_shortner_system_desi.State.{CachedUrl, Stored, json, raw, CacheEntry, World}

-- a connection that is ready and whose commands do not throw
abbrev pub answers : World → Bool
answers w = w.redis_ready && not w.redis_fails

-- `JSON.parse` of the stored text; a text that is no JSON is a long URL of the old format
abbrev pub parse_stored : Stored → Option CachedUrl
parse_stored (json value) = some value
parse_stored (raw s) =
    if is_empty s
    then none
    else some (record {
      id = none;
      long_url = some s;
      password_hash = none;
      is_active = none;
      expires_at = none;
      is_cache_hit = false;
    })

-- Redis drops a key when its time to live is over.
abbrev pub live_entry : ℕ → Option CacheEntry → Option CachedUrl
live_entry now none = none
live_entry now (some entry) = if leb entry.expires now then none else parse_stored entry.stored

unfoldable pub get_cached_url : String → Action World (Option CachedUrl)
get_cached_url code w =
    (ok (if answers w then live_entry w.now (lookup code w.url_cache) else none), w)

unfoldable pub set_cached_url : String → CachedUrl → ℕ → Action World (Unit {0})
set_cached_url code value ttl w = (
  ok tt,
  if answers w
      then record w {
        url_cache =
            insert code (record { stored = json value; expires = w.now + ttl * 1000 }) w.url_cache;
      }
      else w,
)

unfoldable pub invalidate_cache : String → Action World (Unit {0})
invalidate_cache code w =
    (ok tt, if answers w then record w { url_cache = erase code w.url_cache } else w)
