-- ===== src/Links/Withdrawn.antt =====
-- Links that are withdrawn: by their owner, and by moderation.
use url_shortner_system_desi.Common.{
  Bool-cases, String, true, false, Option, none, some, inl, inr, arith, ok, List, [], ◌∷◌, ◌≡◌,
  refl, find, lookup, erase, lookup-erase, eq_iff, eq_refl, any, update_where,
}
use url_shortner_system_desi.State.{User, Url, World, Role}
use url_shortner_system_desi.Repository.{
  has_code, editable, deactivated, deactivate_url, find_by_short_code,
}
use url_shortner_system_desi.Repository.Unique.{UniqueCodes}
use url_shortner_system_desi.Links.Defs.{
  get_original_url, serve_stored, Config, serve, id_of, role_of,
}
use url_shortner_system_desi.Links.Edit.{deactivate_short_url}
use url_shortner_system_desi.Links.Coherence.{seen, refused}
use url_shortner_system_desi.Cache.{answers, invalidate_cache, get_cached_url}
use url_shortner_system_desi.Links.{serve_row}

module _ (code : String) (id : Option String) (role : Role) where
  any-editable_of_free :
      (us : List Url) → any (has_code code) us ≡ false → any (editable code id role) us ≡ false
  any-editable_of_free [] h = refl
  any-editable_of_free (u ∷ us) h = ground (arith, any-editable_of_free us)

  find-deactivated :
      (us : List Url)
      → UniqueCodes us
      → any (editable code id role) us ≡ true
      → (u : Url) × (find (has_code code) (update_where (editable code id role) deactivated us)
          ≡ some (deactivated u))
  find-deactivated [] h e = ground arith
  find-deactivated (u ∷ us) h e = elim (Bool-cases (has_code code u)) [
    | inl here ↦
        let this : u.short_code ≡ code = (eq_iff u.short_code code).0 here in
        let none_later = any-editable_of_free us (rw this at h.0) in (u, ground arith)
    | inr other ↦ let (v, found) = find-deactivated us h.1 (ground arith) in (v, ground arith)
  ]

abbrev after_deactivation : String → Option User → World → World
after_deactivation code editor w = record w {
  urls = update_where (editable code (id_of editor) (role_of editor)) deactivated w.urls;
  url_cache = erase code w.url_cache;
}

deactivate_short_url-done :
    (code : String) (editor : Option User) (w : World)
    → answers w ≡ true
    → (deactivate_short_url code editor w).0 ≡ ok tt
    → ((deactivate_short_url code editor w).1 ≡ after_deactivation code editor w)
      × (any (editable code (id_of editor) (role_of editor)) w.urls ≡ true)
      × (w.db_error ≡ none)
unfolding deactivate_short_url deactivate_url invalidate_cache
deactivate_short_url-done code editor w up done = (ground arith, ground arith, ground arith)

serve_stored-gone :
    (config : Config) (code : String) (w : World) (u : Url)
    → w.db_error ≡ none
    → find (has_code code) w.urls ≡ some (deactivated u)
    → seen (serve_stored config code w).0 ≡ refused (some 410)
unfolding serve_stored serve_row find_by_short_code
serve_stored-gone config code w u up found = ground arith

module _ (config : Config) (code : String) where
  get_original_url-uncached :
      (w : World)
      → lookup code w.url_cache ≡ none
      → get_original_url config code w ≡ serve_stored config code w
  unfolding get_original_url get_cached_url serve
  get_original_url-uncached w gone = elim (Bool-cases (answers w)) [
    | inl ready ↦ rw (ready, gone) refl
    | inr away ↦ rw away refl
  ]

  -- Once a deactivation has succeeded while Redis answers, the redirect of the code is refused with
  -- status 410, whatever copy of the link was cached before.
  pub deactivated_link_is_gone :
      (editor : Option User) (w : World)
      → UniqueCodes w.urls
      → answers w ≡ true
      → (deactivate_short_url code editor w).0 ≡ ok tt
      → seen (get_original_url config code (deactivate_short_url code editor w).1).0
        ≡ refused (some 410)
  deactivated_link_is_gone editor w unique ready done =
      let (after, some_row, up) = deactivate_short_url-done code editor w ready done in
      let (u, found) =
        find-deactivated code (id_of editor) (role_of editor) w.urls unique some_row in
      let w' = after_deactivation code editor w in
      let gone : lookup code w'.url_cache ≡ none =
        rw (lookup-erase code code w.url_cache, eq_refl code) refl in
      rw (after, get_original_url-uncached w' gone) (serve_stored-gone config code w' u up found)
