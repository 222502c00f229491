-- ===== src/Links/Witnesses.antt =====
-- The statements about links at concrete inputs.
use url_shortner_system_desi.Common.{◌≡◌, refl, some, ok, [], ◌∷◌, List, false, arith, any, ◌==◌}
use url_shortner_system_desi.State.{Url, World, CacheEntry, json}
use url_shortner_system_desi.Links.Defs.{cached_form, get_original_url, serve_stored}
use url_shortner_system_desi.Links.Edit.{deactivate_short_url}
use url_shortner_system_desi.Links.Handlers.{moderate_delete_url}
use url_shortner_system_desi.Links.Machine.{Event, request, resolve, create}
use url_shortner_system_desi.Links.Samples.{config, ann, bob, world, link_of_ann, codes_of, sale}
use url_shortner_system_desi.Links.Coherence.{
  Agree-copy, IsCoherent, get_original_url-refines, seen, target, refused,
}
use url_shortner_system_desi.Links.Withdrawn.{deactivated_link_is_gone}
use url_shortner_system_desi.Links.Moderation.{moderated_link_is_served}
use url_shortner_system_desi.Repository.{deactivate_url}
use url_shortner_system_desi.Cache.{invalidate_cache}

abbrev day_of_links : List Event
day_of_links =
    request (create sale (some ann) codes_of)
    ∷ request (resolve "sale")
    ∷ request (create sale (some bob) codes_of)
    ∷ []

abbrev copy_of_ann : CacheEntry
copy_of_ann = record { stored = json (cached_form link_of_ann); expires = 5000 }

abbrev cached_world : World
cached_world = record world { url_cache = ("promo", copy_of_ann) ∷ [] }

cached_world-IsCoherent : IsCoherent cached_world
cached_world-IsCoherent =
    Agree-copy world.urls [] "promo" link_of_ann 5000 (λ c e h. ground arith) refl

ann_deactivates : (deactivate_short_url "promo" (some ann) cached_world).0 ≡ ok tt
unfolding deactivate_short_url deactivate_url invalidate_cache
ann_deactivates = refl

get_original_url-refines_example :
    seen (get_original_url config "promo" cached_world).0
    ≡ seen (serve_stored config "promo" cached_world).0
get_original_url-refines_example =
    get_original_url-refines config "promo" cached_world cached_world-IsCoherent refl

deactivated_link_is_gone_example :
    seen
      (get_original_url config "promo" (deactivate_short_url "promo" (some ann) cached_world).1).0
    ≡ refused (some 410)
deactivated_link_is_gone_example =
    deactivated_link_is_gone config "promo" (some ann) cached_world (refl, tt) refl ann_deactivates

moderated_link_is_served_example :
    let (r, w') = moderate_delete_url 1 (some "spam") cached_world in
    (r ≡ ok tt)
    × (any (λ (v : Url). v.id == 1) w'.urls ≡ false)
    × (seen (get_original_url config "promo" w').0 ≡ target (cached_form link_of_ann))
moderated_link_is_served_example =
    moderated_link_is_served config "promo" "spam" cached_world link_of_ann copy_of_ann refl refl
      refl refl refl refl (omega arith) refl refl refl
