-- ===== src/Links/Edit.antt =====
-- services/url.service.js: reading, editing and deactivating links.
use url_shortner_system_desi.Common.{
  ℕ, String, Bool, true, false, not, ◌&&◌, ◌||◌, Option, none, some, List, [], ◌∷◌, Action, pure,
  Error, throw, throw_if, ◌>>=◌, ◌>>◌, str_eq, ◌==◌, if◌then◌else◌, concat, is_empty, trim,
  app_error, map,
}
use url_shortner_system_desi.State.{User, is_admin, Url, World, sql_eq}
use url_shortner_system_desi.Repository.{
  Row, find_by_short_code_for_user, find_by_id, short_code_exists, update_url, deactivate_url,
  list_urls_for_user,
}
use url_shortner_system_desi.Cache.{invalidate_cache}
use url_shortner_system_desi.Plans.{has_text}
use url_shortner_system_desi.Links.Defs.{
  Config, UrlResponse, format_url_response, id_of, role_of, gated_expiry, or_taken, alias_taken,
  not_found, is_false, or_else, short_url_of,
}

unfoldable pub or_throw {ℓ} : {A : Type ℓ} → Error → Option A → Action World A
or_throw e none = throw e
or_throw e (some a) = pure a

unfoldable pub get_url_stats : Config → String → Option User → Action World UrlResponse
unfolding or_throw
get_url_stats config code reader = do
  found ← find_by_short_code_for_user code (id_of reader) (role_of reader)
  row ← or_throw not_found found
  pure (format_url_response config row)

pub record HealthStatus : Type 0 where
  pub short_code : String
  pub is_alive : Bool
  pub last_checked_at : Option ℕ
  pub health_check_failures : ℕ

unfoldable pub get_url_health_status : ℕ → Action World HealthStatus
unfolding or_throw
get_url_health_status id = do
  found ← find_by_id id
  row ← or_throw not_found found
  pure (record {
    short_code = row.url.short_code;
    is_alive = or_else row.url.is_alive true;
    last_checked_at = row.url.last_checked_at;
    health_check_failures = row.url.health_check_failures;
  })

-- An update: a field that the payload leaves out is `none`, one that it sets to null `some none`.
pub record LinkUpdate : Type 0 where
  pub long_url : Option String
  pub custom_alias : Option (Option String)
  pub expires_at : Option (Option ℕ)
  pub password : Option (Option String)
  pub custom_domain_id : Option (Option ℕ)

abbrev pub is_given {ℓ} : {A : Type ℓ} → Option A → Bool
is_given none = false
is_given (some a) = true

abbrev pub has_fields : LinkUpdate → Bool
has_fields u =
    is_given u.long_url
    || is_given u.custom_alias
    || is_given u.expires_at
    || is_given u.password
    || is_given u.custom_domain_id

-- `url.custom_domain_id ? … : null`
abbrev pub kept_domain : Option ℕ → Option ℕ
kept_domain none = none
kept_domain (some n) = if n == 0 then none else some n

unfoldable pub free_alias : String → String → Action World (String × Option Bool)
free_alias current alias =
    if is_empty alias
    then throw (app_error "Custom alias must be at least 3 characters" 400)
    else if str_eq alias current
    then pure (alias, some true)
    else do exists ← short_code_exists alias; throw_if exists alias_taken; pure (alias, some true)

-- the next short code and alias flag
unfoldable pub next_alias : Url → Option (Option String) → Action World (String × Option Bool)
unfolding free_alias
next_alias url none = pure (url.short_code, url.custom_alias)
next_alias url (some none) = throw (app_error "Custom alias must be at least 3 characters" 400)
next_alias url (some (some alias)) = free_alias url.short_code (trim alias)

-- the next hash, and the password that is checked against the plan
unfoldable pub next_password :
    (String → String) → Option String → Option (Option String) → Option String × Option String
next_password bcrypt_hash old none = (old, none)
next_password bcrypt_hash old (some none) = (none, none)
next_password bcrypt_hash old (some (some p)) =
    if has_text (some p) then (some (bcrypt_hash p), some p) else (none, none)

abbrev pub changed_alias : Url → Option (Option String) → String → Option String
changed_alias url none code = none
changed_alias url (some _) code = if str_eq code url.short_code then none else some code

abbrev pub given_or_none {ℓ} : {A : Type ℓ} → Option (Option A) → Option A
given_or_none none = none
given_or_none (some a) = a

-- the expiry to store: what the plan check returns where the payload names an expiry
abbrev pub next_expiry : Option ℕ → Option (Option ℕ) → Option ℕ → Option ℕ
next_expiry old none gated = old
next_expiry old (some e) gated = gated

module _ (config : Config) (bcrypt_hash : String → String) where
  unfoldable pub write_update : String → LinkUpdate → Option User → Url → Action World (Option Row)
  unfolding next_alias next_password or_taken
  write_update code u editor url = do
    (next_code, next_custom_alias) ← next_alias url u.custom_alias
    let (next_hash, checked) = next_password bcrypt_hash url.password_hash u.password
    gated ← gated_expiry editor (record {
      custom_alias = changed_alias url u.custom_alias next_code;
      expires_at = given_or_none u.expires_at;
      password = checked;
      custom_domain_id = given_or_none u.custom_domain_id;
    })
    λ w. or_taken (
        update_url code (or_else u.long_url url.long_url) next_code next_custom_alias
          (next_expiry url.expires_at u.expires_at gated) (id_of editor) (role_of editor) next_hash
          (or_else u.custom_domain_id (kept_domain url.custom_domain_id)) w)

  unfoldable pub update_short_url :
      String → Option LinkUpdate → Option User → Action World UrlResponse
  unfolding or_throw write_update
  update_short_url code updates editor = do
    u ← or_throw (app_error "Invalid update payload" 400) updates
    throw_if (not (has_fields u)) (app_error "At least one field is required" 400)
    found ← find_by_short_code_for_user code (id_of editor) (role_of editor)
    existing ← or_throw not_found found
    throw_if (is_false existing.url.is_active) (app_error "This short URL is no longer active" 410)
    updated ← write_update code u editor existing.url
    row ← or_throw (app_error "URL not found or is no longer active" 404) updated
    invalidate_cache code
    pure (format_url_response config row)

unfoldable pub deactivate_short_url : String → Option User → Action World (Unit {0})
deactivate_short_url code editor = do
  deactivated ← deactivate_url code (id_of editor) (role_of editor)
  throw_if (not deactivated) (app_error "URL not found or already inactive" 404)
  invalidate_cache code

unfoldable pub list_user_urls : Config → Option User → Action World (List UrlResponse)
list_user_urls config owner = do
  rows ← list_urls_for_user (id_of owner)
  pure (map (format_url_response config) rows)

unfoldable pub get_url_by_id : Config → ℕ → Option User → Action World UrlResponse
unfolding or_throw
get_url_by_id config id reader = do
  found ← find_by_id id
  row ← or_throw not_found found
  throw_if (not (sql_eq row.url.user_id (id_of reader)) && not (is_admin (role_of reader)))
      (app_error "Unauthorized access to this URL" 403)
  pure (format_url_response config row)

-- `to_data_url` is `QRCode.toDataURL`
unfoldable pub generate_url_qr_code :
    Config → (String → String) → String → Option User → Action World String
unfolding or_throw
generate_url_qr_code config to_data_url code reader = do
  found ← find_by_short_code_for_user code (id_of reader) (role_of reader)
  row ← or_throw not_found found
  pure (to_data_url (concat (short_url_of config row.url ∷ "?src=qr" ∷ [])))
