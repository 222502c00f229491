-- ===== src/Links/Defs.antt =====
-- services/url.service.js: creating, resolving and reading links.
use url_shortner_system_desi.Common.{
  ℕ, String, Bool, true, false, not, ◌&&◌, ◌||◌, Option, none, some, [], ◌∷◌, Action, ok, err, pure,
  Error, Result, gets, throw, throw_if, ◌>>=◌, ◌>>◌, ◌==◌, leb, if◌then◌else◌, concat, show_nat,
  truthy, is_empty, app_error,
}
use url_shortner_system_desi.State.{Role, User, user, Url, CachedUrl, World}
use url_shortner_system_desi.ShortCode.{is_short_code_conflict, insert_with_unique_code}
use url_shortner_system_desi.Repository.{Row, create_url, find_by_short_code, short_code_exists}
use url_shortner_system_desi.Cache.{get_cached_url, set_cached_url}
use url_shortner_system_desi.Plans.{GatedFields, validate_url_gating}

-- the entries of config/config.js that the links use; times to live are seconds
pub record Config : Type 0 where
  pub base_url : String
  pub client_url : String
  pub cache_ttl : ℕ

pub record UrlResponse : Type 0 where
  pub id : String
  pub long_url : String
  pub short_code : String
  pub short_url : String
  pub custom_alias : Option Bool
  pub is_active : Option Bool
  pub is_alive : Bool
  pub last_checked_at : Option ℕ
  pub health_check_failures : ℕ
  pub expires_at : Option ℕ
  pub created_at : ℕ
  pub clicks_count : ℕ
  pub password_protected : Bool
  pub custom_domain_id : Option String

-- `value ?? other`
abbrev pub or_else {ℓ} : {A : Type ℓ} → Option A → A → A
or_else none a = a
or_else (some b) a = b

-- `id ? id.toString() : null`, where 0 is falsy
abbrev pub shown_id : Option ℕ → Option String
shown_id none = none
shown_id (some n) = if n == 0 then none else some (show_nat n)

abbrev pub short_url_of : Config → Url → String
short_url_of config url = concat (config.base_url ∷ "/r/" ∷ url.short_code ∷ [])

unfoldable pub format_url_response : Config → Row → UrlResponse
format_url_response config row = record {
  id = show_nat row.url.id;
  long_url = row.url.long_url;
  short_code = row.url.short_code;
  short_url = short_url_of config row.url;
  custom_alias = row.url.custom_alias;
  is_active = row.url.is_active;
  is_alive = or_else row.url.is_alive true;
  last_checked_at = row.url.last_checked_at;
  health_check_failures = row.url.health_check_failures;
  expires_at = row.url.expires_at;
  created_at = row.url.created_at;
  clicks_count = or_else row.clicks_count 0;
  password_protected = truthy row.url.password_hash;
  custom_domain_id = shown_id row.url.custom_domain_id;
}

-- `user?.id ?? null` and `user?.role ?? "USER"`
abbrev pub id_of : Option User → Option String
id_of none = none
id_of (some u) = some u.id

abbrev pub role_of : Option User → Role
role_of none = user
role_of (some u) = u.role

abbrev pub alias_taken : Error
alias_taken = app_error "Custom alias already taken" 409

-- the `catch` around a statement that may meet the unique index
unfoldable pub or_taken {ℓ} : {A : Type ℓ} → Result A × World → Result A × World
or_taken (ok a, w) = (ok a, w)
or_taken (err e, w) = (err (if is_short_code_conflict e then alias_taken else e), w)

-- `if (user && user.id)`
abbrev pub gated_expiry : Option User → GatedFields → Action World (Option ℕ)
gated_expiry none fields = pure fields.expires_at
gated_expiry (some u) fields =
    if is_empty u.id then pure fields.expires_at else validate_url_gating u.id fields

-- `password ? await bcrypt.hash(password, 10) : null`
abbrev pub hashed : (String → String) → Option String → Option String
hashed bcrypt_hash none = none
hashed bcrypt_hash (some p) = if is_empty p then none else some (bcrypt_hash p)

-- the arguments of a creation, as a request gives them
pub record NewLink : Type 0 where
  pub long_url : String
  pub custom_alias : Option String
  pub expires_at : Option ℕ
  pub password : Option String
  pub custom_domain_id : Option ℕ

abbrev pub gated_fields : NewLink → GatedFields
gated_fields link = record {
  custom_alias = link.custom_alias;
  expires_at = link.expires_at;
  password = link.password;
  custom_domain_id = link.custom_domain_id;
}

-- `bcrypt_hash` is the hash of this request, its salt drawn; `generate i` is the code of round `i`.
module _ (config : Config) (bcrypt_hash : String → String) (generate : ℕ → Result String) where
  unfoldable pub insert_link : NewLink → Option User → Option ℕ → Bool → String → Action World Row
  insert_link link owner expires_at custom_alias code =
      create_url link.long_url code custom_alias expires_at (id_of owner)
        (hashed bcrypt_hash link.password) link.custom_domain_id

  unfoldable pub insert_alias : NewLink → Option User → Option ℕ → String → Action World Row
  unfolding insert_link or_taken
  insert_alias link owner expires_at alias = do
    exists ← short_code_exists alias
    throw_if exists alias_taken
    λ w. or_taken (insert_link link owner expires_at true alias w)

  unfoldable pub insert_generated : NewLink → Option User → Option ℕ → Action World Row
  unfolding insert_link
  insert_generated link owner expires_at =
      insert_with_unique_code (insert_link link owner expires_at false) generate 5

  -- `if (customAlias)`
  unfoldable pub insert_as : NewLink → Option User → Option ℕ → Option String → Action World Row
  unfolding insert_alias insert_generated
  insert_as link owner expires_at none = insert_generated link owner expires_at
  insert_as link owner expires_at (some alias) =
      if is_empty alias
      then insert_generated link owner expires_at
      else insert_alias link owner expires_at alias

  unfoldable pub insert_row : NewLink → Option User → Option ℕ → Action World Row
  unfolding insert_as
  insert_row link owner expires_at = insert_as link owner expires_at link.custom_alias

  unfoldable pub shorten_url : NewLink → Option User → Action World UrlResponse
  unfolding insert_row
  shorten_url link owner = do
    expires_at ← gated_expiry owner (gated_fields link)
    row ← insert_row link owner expires_at
    pure (format_url_response config row)

-- `expiresAt && new Date(expiresAt) <= new Date()`
abbrev pub is_expired : ℕ → Option ℕ → Bool
is_expired now none = false
is_expired now (some t) = leb t now

-- a cached object with a long URL and both `isActive` and `expiresAt` present
abbrev pub is_usable : CachedUrl → Bool
is_usable c =
    truthy c.long_url
    && (elim c.is_active [ none ↦ false | some _ ↦ true ])
    && (elim c.expires_at [ none ↦ false | some _ ↦ true ])

abbrev pub gone_cached : Error
gone_cached = app_error "This short URL has expired or is inactive" 410

abbrev pub not_found : Error
not_found = app_error "URL not found" 404

unfoldable pub serve_cached : CachedUrl → Action World CachedUrl
serve_cached c = do
  now ← gets (λ (w : World). w.now)
  throw_if (not (or_else c.is_active false) || is_expired now (or_else c.expires_at none))
      gone_cached
  pure (record c { is_cache_hit = true })

abbrev pub is_false : Option Bool → Bool
is_false (some false) = true
is_false _ = false

abbrev pub cached_form : Url → CachedUrl
cached_form url = record {
  id = some (show_nat url.id);
  long_url = some url.long_url;
  password_hash = url.password_hash;
  is_active = some (not (is_false url.is_active));
  expires_at = some url.expires_at;
  is_cache_hit = false;
}

unfoldable pub serve_row : Config → String → Option Url → Action World CachedUrl
serve_row config code none = throw not_found
serve_row config code (some url) = do
  throw_if (is_false url.is_active) (app_error "This short URL is no longer active" 410)
  now ← gets (λ (w : World). w.now)
  throw_if (is_expired now url.expires_at) (app_error "This short URL has expired" 410)
  set_cached_url code (cached_form url) config.cache_ttl
  pure (cached_form url)

unfoldable pub serve_stored : Config → String → Action World CachedUrl
unfolding serve_row
serve_stored config code = do url ← find_by_short_code code; serve_row config code url

unfoldable pub serve : Config → String → Option CachedUrl → Action World CachedUrl
unfolding serve_cached serve_stored
serve config code none = serve_stored config code
serve config code (some c) = if is_usable c then serve_cached c else serve_stored config code

unfoldable pub get_original_url : Config → String → Action World CachedUrl
unfolding serve
get_original_url config code = do cached ← get_cached_url code; serve config code cached
