-- ===== src/Links/Moderation.antt =====
-- The moderation of links in controllers/admin.controller.js beside the cached redirect.
use url_shortner_system_desi.Common.{
  bind-ok, ℕ, String, Bool, true, false, none, some, arith, ok, List, [], ◌∷◌, ◌≡◌, ◌<◌, refl, find,
  select, lookup, any, is_empty, not, ◌==◌,
}
use url_shortner_system_desi.State.{Url, Click, World, CacheEntry, json}
use url_shortner_system_desi.Links.Defs.{
  cached_form, get_original_url, Config, serve, serve_cached, is_false, is_expired,
}
use url_shortner_system_desi.Links.Handlers.{moderate_delete_url}
use url_shortner_system_desi.Links.Coherence.{seen, target}
use url_shortner_system_desi.Cache.{answers, get_cached_url}

any-select-not : (p : Url → Bool) (us : List Url) → any p (select (λ u. not (p u)) us) ≡ false
any-select-not p [] = refl
any-select-not p (u ∷ us) = ground (arith, any-select-not p us)

abbrev after_moderation : ℕ → World → World
after_moderation id w = record w {
  urls = select (λ (u : Url). not (u.id == id)) w.urls;
  clicks = select (λ (c : Click). not (c.url_id == id)) w.clicks;
}

moderate_delete_url-done :
    (id : ℕ) (reason : String) (w : World) (u : Url)
    → w.db_error ≡ none
    → is_empty reason ≡ false
    → find (λ (v : Url). v.id == id) w.urls ≡ some u
    → moderate_delete_url id (some reason) w ≡ (ok tt, after_moderation id w)
unfolding moderate_delete_url
moderate_delete_url-done id reason w u up given row = ground arith

serve_cached-live :
    (config : Config) (code : String) (w : World) (u : Url)
    → is_false u.is_active ≡ false
    → is_expired w.now u.expires_at ≡ false
    → is_empty u.long_url ≡ false
    → seen (serve config code (some (cached_form u)) w).0 ≡ target (cached_form u)
unfolding serve serve_cached
serve_cached-live config code w u active fresh long = ground arith

get_cached_url-live :
    (code : String) (w : World) (u : Url) (e : CacheEntry)
    → answers w ≡ true
    → lookup code w.url_cache ≡ some e
    → e.stored ≡ json (cached_form u)
    → w.now < e.expires
    → get_cached_url code w ≡ (ok (some (cached_form u)), w)
unfolding get_cached_url
get_cached_url-live code w u e ready copied form live = rw (ready, copied) (rw form (ground arith))

get_original_url-live :
    (config : Config) (code : String) (w : World) (u : Url)
    → get_cached_url code w ≡ (ok (some (cached_form u)), w)
    → get_original_url config code w ≡ serve config code (some (cached_form u)) w
unfolding get_original_url
get_original_url-live config code w u hit = bind-ok (get_cached_url code) (serve config code) hit

-- A link that has been cached survives its moderation: where the cache holds a live copy of a row
-- that is active and not expired, and Redis answers, the moderator's delete succeeds, no row of that
-- id is left, and the redirect of the code still leads to the row's target.
pub moderated_link_is_served :
    (config : Config) (code reason : String) (w : World) (u : Url) (e : CacheEntry)
    → w.db_error ≡ none
    → answers w ≡ true
    → is_empty reason ≡ false
    → find (λ (v : Url). v.id == u.id) w.urls ≡ some u
    → lookup code w.url_cache ≡ some e
    → e.stored ≡ json (cached_form u)
    → w.now < e.expires
    → is_false u.is_active ≡ false
    → is_expired w.now u.expires_at ≡ false
    → is_empty u.long_url ≡ false
    → let (r, w') = moderate_delete_url u.id (some reason) w in
      (r ≡ ok tt)
      × (any (λ (v : Url). v.id == u.id) w'.urls ≡ false)
      × (seen (get_original_url config code w').0 ≡ target (cached_form u))
moderated_link_is_served config code reason w u e up ready given row copied form live active fresh
      long =
    let w' = after_moderation u.id w in
    let hit = get_cached_url-live code w' u e ready copied form live in
    rw (moderate_delete_url-done u.id reason w u up given row) (
      refl,
      any-select-not (λ (v : Url). v.id == u.id) w.urls,
      rw (get_original_url-live config code w' u hit)
          (serve_cached-live config code w' u active fresh long),
    )
