-- ===== src/Links/Unique.antt =====
-- Every operation on the links keeps their short codes distinct.
use url_shortner_system_desi.Common.{
  Keeps-gets, ℕ, String, Bool, true, false, Option, none, some, Keeps, keeps_rules, arith, Dict,
  Result, ok, err, ◌≡◌, refl, Action, eq_iff,
}
use url_shortner_system_desi.State.{CachedUrl, ActiveSubscription, User, Url, World, execute, Role}
use url_shortner_system_desi.Repository.{
  create_url, update_url, deactivate_url, editable, edited, new_url, deactivated,
  find_by_short_code, short_code_exists,
}
use url_shortner_system_desi.Repository.Unique.{
  UniqueCodes, UniqueCodes-insert, UniqueCodes-update_where, UniqueCodes-update_where_same,
}
use url_shortner_system_desi.Plans.{GatedFields}
use url_shortner_system_desi.Plans.Frame.{Keeps-query, validate_url_gating-Keeps}
use url_shortner_system_desi.ShortCode.Frame.{insert_with_unique_code-Keeps}
use url_shortner_system_desi.Links.{
  serve_cached, serve_stored, serve, insert_as, serve_row, Config, NewLink, shorten_url, insert_row,
  insert_alias, insert_generated, insert_link, gated_expiry, or_taken, get_original_url,
}
use url_shortner_system_desi.Cache.{set_cached_url, get_cached_url, invalidate_cache}

abbrev pub IsUnique : World → Type 0
IsUnique w = UniqueCodes w.urls

pub Keeps-execute :
    {P : World → Type 0} {A : Type 0} {m : Action World A} → Keeps P m → Keeps P (execute m)
Keeps-execute h = record { at = λ w p. ground (arith, h.at w p) }

create_url-IsUnique :
    (long code : String) (a : Bool) (e : Option ℕ) (u h : Option String) (d : Option ℕ)
    → Keeps IsUnique (create_url long code a e u h d)
unfolding create_url
create_url-IsUnique long code a e u h d = record {
  at = λ w p. ground (arith, UniqueCodes-insert w.urls (new_url w long code a e u h d) p);
}

editable_code :
    (code : String) (id : Option String) (r : Role) (u : Url)
    → editable code id r u ≡ true
    → u.short_code ≡ code
editable_code code id r u h = ground (arith, eq_iff u.short_code code)

pub update_url-IsUnique :
    (code long new : String) (a : Option Bool) (e : Option ℕ) (id : Option String) (r : Role)
    (h : Option String) (d : Option ℕ)
    → Keeps IsUnique (update_url code long new a e id r h d)
unfolding update_url
update_url-IsUnique code long new a e id r h d = record {
  at = λ w p. ground (
    arith,
    UniqueCodes-update_where (editable code id r) (edited long new a e h d) code new
        (editable_code code id r) (λ u k. refl) w.urls p,
  );
}

pub deactivate_url-IsUnique :
    (code : String) (id : Option String) (r : Role) → Keeps IsUnique (deactivate_url code id r)
unfolding deactivate_url
deactivate_url-IsUnique code id r = record {
  at = λ w p.
      ground (
        arith,
        UniqueCodes-update_where_same (editable code id r) deactivated (λ u. refl) w.urls p,
      );
}

pub IsUnique-blind :
    (w : World) (c : Dict ActiveSubscription) → IsUnique w → IsUnique (record w { plan_cache = c })
IsUnique-blind w c p = p

pub gated_expiry-IsUnique : (u : Option User) (f : GatedFields) → Keeps IsUnique (gated_expiry u f)
gated_expiry-IsUnique none f = search keeps_rules
gated_expiry-IsUnique (some u) f = search (keeps_rules, validate_url_gating-Keeps IsUnique-blind)

or_taken-state : {A : Type 0} (o : Result A × World) → IsUnique o.1 → IsUnique (or_taken o).1
unfolding or_taken
or_taken-state (ok a, w) p = p
or_taken-state (err e, w) p = p

pub or_taken-Keeps :
    {A : Type 0} {m : Action World A} → Keeps IsUnique m → Keeps IsUnique (λ w. or_taken (m w))
or_taken-Keeps {m} h = record { at = λ w p. or_taken-state (m w) (h.at w p) }

module _ (config : Config) (hash : String → String) (generate : ℕ → Result String) where
  insert_link-IsUnique :
      (l : NewLink) (u : Option User) (e : Option ℕ) (a : Bool) (c : String)
      → Keeps IsUnique (insert_link config hash generate l u e a c)
  unfolding insert_link
  insert_link-IsUnique l u e a c = create_url-IsUnique _ _ _ _ _ _ _

  insert_alias-IsUnique :
      (l : NewLink) (u : Option User) (e : Option ℕ) (c : String)
      → Keeps IsUnique (insert_alias config hash generate l u e c)
  unfolding insert_alias short_code_exists
  insert_alias-IsUnique l u e c =
      search (keeps_rules, Keeps-query, or_taken-Keeps, insert_link-IsUnique)

  insert_generated-IsUnique :
      (l : NewLink) (u : Option User) (e : Option ℕ)
      → Keeps IsUnique (insert_generated config hash generate l u e)
  unfolding insert_generated
  insert_generated-IsUnique l u e =
      insert_with_unique_code-Keeps _ _ (λ c. insert_link-IsUnique l u e false c) 5

  insert_as-IsUnique :
      (l : NewLink) (u : Option User) (e : Option ℕ) (a : Option String)
      → Keeps IsUnique (insert_as config hash generate l u e a)
  unfolding insert_as
  insert_as-IsUnique l u e none = insert_generated-IsUnique l u e
  insert_as-IsUnique l u e (some alias) =
      search (keeps_rules, insert_generated-IsUnique, insert_alias-IsUnique)

  insert_row-IsUnique :
      (l : NewLink) (u : Option User) (e : Option ℕ)
      → Keeps IsUnique (insert_row config hash generate l u e)
  unfolding insert_row
  insert_row-IsUnique l u e = insert_as-IsUnique l u e l.custom_alias

  pub shorten_url-IsUnique :
      (l : NewLink) (u : Option User) → Keeps IsUnique (shorten_url config hash generate l u)
  unfolding shorten_url
  shorten_url-IsUnique l u = search (keeps_rules, gated_expiry-IsUnique, insert_row-IsUnique)

set_cached_url-IsUnique :
    (c : String) (v : CachedUrl) (n : ℕ) → Keeps IsUnique (set_cached_url c v n)
unfolding set_cached_url
set_cached_url-IsUnique c v n = record { at = λ w p. ground arith }

pub invalidate_cache-IsUnique : (c : String) → Keeps IsUnique (invalidate_cache c)
unfolding invalidate_cache
invalidate_cache-IsUnique c = record { at = λ w p. ground arith }

serve_row-IsUnique :
    (config : Config) (c : String) (u : Option Url) → Keeps IsUnique (serve_row config c u)
unfolding serve_row
serve_row-IsUnique config c none = search keeps_rules
serve_row-IsUnique config c (some u) = search (keeps_rules, set_cached_url-IsUnique)

serve-IsUnique :
    (config : Config) (c : String) (v : Option CachedUrl) → Keeps IsUnique (serve config c v)
unfolding serve serve_stored find_by_short_code serve_cached
serve-IsUnique config c none = search (keeps_rules, Keeps-query, serve_row-IsUnique)
serve-IsUnique config c (some v) = search (keeps_rules, Keeps-query, serve_row-IsUnique)

pub get_original_url-IsUnique :
    (config : Config) (c : String) → Keeps IsUnique (get_original_url config c)
unfolding get_original_url get_cached_url
get_original_url-IsUnique config c = search (keeps_rules, Keeps-gets, serve-IsUnique)
