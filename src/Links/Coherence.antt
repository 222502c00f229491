-- ===== src/Links/Coherence.antt =====
-- The Redis copies of links agree with the table, and what the redirect then answers.
use url_shortner_system_desi.Common.{
  ℕ, String, false, Option, none, some, inl, inr, arith, Result, ok, err, List, [], ◌∷◌, ◌++◌, ◌≡◌,
  refl, find, lookup, insert, erase, lookup-insert, lookup-erase, str_eq, eq_iff, Bool-cases, Dict,
  leb,
}
use url_shortner_system_desi.State.{Url, World, CacheEntry, CachedUrl, json}
use url_shortner_system_desi.Repository.{find_by_short_code, has_code}
use url_shortner_system_desi.Links.Defs.{
  cached_form, get_original_url, serve_stored, Config, serve, serve_cached, serve_row,
}
use url_shortner_system_desi.Cache.{answers, live_entry, get_cached_url, set_cached_url}

-- Every stored copy is the form of the row that the table has for its code.
abbrev pub Agree : List Url → Dict CacheEntry → Type 0
Agree urls cache =
    (c : String) (e : CacheEntry)
    → lookup c cache ≡ some e
    → (u : Url) × (find (has_code c) urls ≡ some u) × (e.stored ≡ json (cached_form u))

abbrev pub IsCoherent : World → Type 0
IsCoherent w = Agree w.urls w.url_cache

-- What a client can tell of an outcome: the target, or the status of the refusal.
pub data Seen : Type 0 where
  target : CachedUrl → Seen
  refused : Option ℕ → Seen

abbrev pub seen : Result CachedUrl → Seen
seen (ok c) = target (record c { is_cache_hit = false })
seen (err e) = refused e.status_code

module _ (config : Config) (code : String) where
  serve-cached_form :
      (w : World) (u : Url)
      → w.db_error ≡ none
      → find (has_code code) w.urls ≡ some u
      → seen (serve config code (some (cached_form u)) w).0 ≡ seen (serve_stored config code w).0
  unfolding serve serve_cached serve_stored serve_row find_by_short_code set_cached_url
  serve-cached_form w u up found = ground arith

  serve-live_entry :
      (w : World) (o : Option CacheEntry)
      → IsCoherent w
      → w.db_error ≡ none
      → lookup code w.url_cache ≡ o
      → seen (serve config code (live_entry w.now o) w).0 ≡ seen (serve_stored config code w).0
  serve-live_entry w none p up h = unfold serve in refl
  serve-live_entry w (some e) p up h =
      let (u, found, same) = p code e h in
      elim (Bool-cases (leb e.expires w.now)) [
        | inl over ↦ rw over (unfold serve in refl)
        | inr live ↦ rw (live, same) (serve-cached_form w u up found)
      ]

  -- A copy in the cache makes no difference that a client can tell: while the copies agree with the
  -- table and the database answers, the redirect gives the target, or the status, that the table
  -- alone gives.
  pub get_original_url-refines :
      (w : World)
      → IsCoherent w
      → w.db_error ≡ none
      → seen (get_original_url config code w).0 ≡ seen (serve_stored config code w).0
  unfolding get_original_url get_cached_url
  get_original_url-refines w p up = elim (Bool-cases (answers w)) [
    | inl ready ↦ rw ready (serve-live_entry w (lookup code w.url_cache) p up refl)
    | inr away ↦ rw away (unfold serve in refl)
  ]

stored_of : (x e : CacheEntry) → some x ≡ some e → e.stored ≡ x.stored
stored_of x e h = ground arith

-- The copies stay in agreement when a row of the table is copied, when a copy is dropped, and when
-- a row of a free code is added.
pub Agree-copy :
    (urls : List Url) (cache : Dict CacheEntry) (code : String) (u : Url) (expires : ℕ)
    → Agree urls cache
    → find (has_code code) urls ≡ some u
    → Agree urls (insert code (record { stored = json (cached_form u); expires = expires }) cache)
Agree-copy urls cache code u expires p found c e h = elim (Bool-cases (str_eq code c)) [
  | inl same ↦
      let this : code ≡ c = (eq_iff code c).0 same in
      let entry : some (record { stored = json (cached_form u); expires = expires }) ≡ some e =
        rw (lookup-insert code c _ cache, same) at h in
      (u, rw (← this) found, stored_of _ e entry)
  | inr other ↦ p c e (rw (lookup-insert code c _ cache, other) at h)
]

pub Agree-drop :
    (urls : List Url) (cache : Dict CacheEntry) (code : String)
    → Agree urls cache
    → Agree urls (erase code cache)
Agree-drop urls cache code p c e h = elim (Bool-cases (str_eq code c)) [
  | inl same ↦ let never : none ≡ some e = rw (lookup-erase code c cache, same) at h in cc
  | inr other ↦ p c e (rw (lookup-erase code c cache, other) at h)
]

find-append_some :
    (c : String) (us vs : List Url) (u : Url)
    → find (has_code c) us ≡ some u
    → find (has_code c) (us ++ vs) ≡ some u
find-append_some c [] vs u h = ground arith
find-append_some c (v ∷ us) vs u h = ground (arith, find-append_some c us vs u)

pub Agree-append :
    (urls : List Url) (cache : Dict CacheEntry) (v : Url)
    → Agree urls cache
    → Agree (urls ++ v ∷ []) cache
Agree-append urls cache v p c e h =
    let (u, found, same) = p c e h in (u, find-append_some c urls (v ∷ []) u found, same)
