-- ===== src/Links/Requests.antt =====
-- The link service as a machine: any sequence of requests, clicks, outages and passing time.
use url_shortner_system_desi.Common.{
  Keeps-throw_if, Keeps-then, not, trim, ℕ, String, Option, none, some, Keeps, Keeps-bind,
  keeps_rules, arith, ◌==◌, Error,
}
use url_shortner_system_desi.State.{User, Url, World}
use url_shortner_system_desi.Links.Unique.{
  update_url-IsUnique, or_taken-Keeps, gated_expiry-IsUnique, invalidate_cache-IsUnique,
  deactivate_url-IsUnique, IsUnique,
}
use url_shortner_system_desi.Repository.Unique.{UniqueCodes-select}
use url_shortner_system_desi.Plans.Frame.{Keeps-query}
use url_shortner_system_desi.Links.{
  delete_link, LinkUpdate, write_update, update_short_url, next_alias, free_alias, or_throw,
  deactivate_short_url, moderate_delete_url, Config,
}
use url_shortner_system_desi.Repository.{find_by_short_code_for_user, short_code_exists}

or_throw-Keeps :
    {P : World → Type 0} {A : Type 0} (e : Error) (a : Option A) → Keeps P (or_throw e a)
unfolding or_throw
or_throw-Keeps e none = search keeps_rules
or_throw-Keeps e (some a) = search keeps_rules

free_alias-IsUnique : (c a : String) → Keeps IsUnique (free_alias c a)
unfolding free_alias short_code_exists
free_alias-IsUnique c a = search (keeps_rules, Keeps-query) depth 8

next_alias-IsUnique : (u : Url) (a : Option (Option String)) → Keeps IsUnique (next_alias u a)
unfolding next_alias
next_alias-IsUnique u none = search keeps_rules
next_alias-IsUnique u (some none) = search keeps_rules
next_alias-IsUnique u (some (some a)) = free_alias-IsUnique u.short_code (trim a)

module _ (config : Config) (hash : String → String) where
  write_update-IsUnique :
      (c : String) (f : LinkUpdate) (u : Option User) (l : Url)
      → Keeps IsUnique (write_update config hash c f u l)
  unfolding write_update
  write_update-IsUnique c f u l =
      search
        (
          keeps_rules, next_alias-IsUnique, gated_expiry-IsUnique, or_taken-Keeps,
          update_url-IsUnique,
        )
        depth 8

  pub update_short_url-IsUnique :
      (c : String) (f : Option LinkUpdate) (u : Option User)
      → Keeps IsUnique (update_short_url config hash c f u)
  unfolding update_short_url find_by_short_code_for_user
  update_short_url-IsUnique c f u =
      search
        (keeps_rules, Keeps-query, or_throw-Keeps, write_update-IsUnique, invalidate_cache-IsUnique)
        depth 12

pub deactivate_short_url-IsUnique :
    (c : String) (u : Option User) → Keeps IsUnique (deactivate_short_url c u)
unfolding deactivate_short_url
deactivate_short_url-IsUnique c u =
    search (keeps_rules, deactivate_url-IsUnique, invalidate_cache-IsUnique) depth 8

delete_link-IsUnique : (id : ℕ) → Keeps IsUnique (delete_link id)
unfolding delete_link
delete_link-IsUnique id = record {
  at = λ w p. ground (arith, UniqueCodes-select (λ (u : Url). not (u.id == id)) w.urls p);
}

pub moderate_delete_url-IsUnique :
    (id : ℕ) (r : Option String) → Keeps IsUnique (moderate_delete_url id r)
unfolding moderate_delete_url
moderate_delete_url-IsUnique id r = Keeps-then (Keeps-throw_if _ _) (
    Keeps-bind (Keeps-query _)
      (λ found. Keeps-bind (or_throw-Keeps _ found) (λ _. delete_link-IsUnique id)))
