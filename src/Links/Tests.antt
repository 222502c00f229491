-- ===== src/Links/Tests.antt =====
-- Runs of the link service at concrete inputs.
use url_shortner_system_desi.Common.{
  ◌≡◌, refl, none, some, ok, err, [], ◌∷◌, String, map, List, Option, trim, show_nat, Result,
}
use url_shortner_system_desi.State.{Url, World, CachedUrl}
use url_shortner_system_desi.ShortCode.{is_short_code_conflict, insert_with_unique_code}
use url_shortner_system_desi.Repository.{
  create_url, short_code_exists, deactivate_url, find_by_short_code,
}
use url_shortner_system_desi.Cache.{get_cached_url, set_cached_url, invalidate_cache}
use url_shortner_system_desi.Plans.{validate_url_gating, has_feature, get_active_subscription}
use url_shortner_system_desi.Links.{
  shorten_url, get_original_url, alias_taken, deactivate_short_url, NewLink, format_url_response,
}
use url_shortner_system_desi.Links.Samples.{config, ann, world, hash, codes_of, sale}

runs : Unit {0}
unfolding shorten_url create_url short_code_exists deactivate_url find_by_short_code get_cached_url
    set_cached_url invalidate_cache validate_url_gating has_feature get_active_subscription
    get_original_url deactivate_short_url insert_with_unique_code trim show_nat
    is_short_code_conflict format_url_response
runs = tt

abbrev codes_in : World → List String
codes_in w = map (λ (u : Url). u.short_code) w.urls

abbrev target_of : Result CachedUrl → Option String
target_of (ok c) = c.long_url
target_of (err e) = none

abbrev generated : NewLink
generated = record sale { custom_alias = none }

shorten_sale :
    codes_in (shorten_url config hash codes_of sale (some ann) world).1 ≡ "promo" ∷ "sale" ∷ []
unfolding runs
shorten_sale = refl

shorten_generated :
    codes_in (shorten_url config hash codes_of generated (some ann) world).1
    ≡ "promo" ∷ "a1B2c3D" ∷ []
unfolding runs
shorten_generated = refl

shorten_taken :
    (shorten_url config hash codes_of
      (record sale { custom_alias = some "promo" })
      (some ann)
      world).0
    ≡ err alias_taken
unfolding runs
shorten_taken = refl

resolve_promo : target_of (get_original_url config "promo" world).0 ≡ some "https://a.example/"
unfolding runs
resolve_promo = refl

resolve_cached :
    target_of (get_original_url config "promo" (get_original_url config "promo" world).1).0
    ≡ some "https://a.example/"
unfolding runs
resolve_cached = refl

resolve_deactivated :
    target_of
      (get_original_url config "promo"
        (deactivate_short_url "promo" (some ann) (get_original_url config "promo" world).1).1).0
    ≡ none
unfolding runs
resolve_deactivated = refl
