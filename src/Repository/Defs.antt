-- ===== src/Repository/Defs.antt =====
-- The statements of repositories/url.repository.js.
use url_shortner_system_desi.Common.{
  ℕ, ◌+◌, String, Bool, true, false, not, ◌&&◌, ◌||◌, Option, none, some, List, [], ◌∷◌, ◌++◌,
  Error, ok, err, Action, str_eq, ◌==◌, leb, if◌then◌else◌, any, find, select, count, update_where,
  map,
}
use url_shortner_system_desi.State.{Role, is_admin, Url, Click, World, query, execute, sql_eq}

abbrev pub has_code : String → Url → Bool
has_code code url = str_eq url.short_code code

-- `$2 = 'ADMIN' OR user_id = $3`
abbrev pub may_access : Role → Option String → Url → Bool
may_access role user_id url = is_admin role || sql_eq url.user_id user_id

abbrev pub is_true : Option Bool → Bool
is_true (some true) = true
is_true _ = false

-- a row with its click count, where the query selects one
pub record Row : Type 0 where
  pub url : Url
  pub clicks_count : Option ℕ

abbrev pub with_clicks : World → Url → Row
with_clicks w url = record {
  url = url;
  clicks_count = some (count (λ (c : Click). c.url_id == url.id) w.clicks);
}

abbrev pub unique_violation : Error
unique_violation = record {
  message = "duplicate key value violates unique constraint \"Url_short_code_key\"";
  status_code = none;
  is_operational = false;
  details = none;
  error_code = none;
  code = some "23505";
  constraint = some "Url_short_code_key";
}

abbrev pub new_url :
    World → String → String → Bool → Option ℕ → Option String → Option String → Option ℕ → Url
new_url w long_url short_code custom_alias expires_at user_id password_hash domain_id = record {
  id = w.next_url_id;
  short_code = short_code;
  long_url = long_url;
  user_id = user_id;
  custom_alias = some custom_alias;
  is_active = some true;
  expires_at = expires_at;
  created_at = w.now;
  last_checked_at = none;
  is_alive = some true;
  health_check_failures = 0;
  password_hash = password_hash;
  custom_domain_id = domain_id;
}

-- INSERT … RETURNING *
unfoldable pub create_url :
    String → String → Bool → Option ℕ → Option String → Option String → Option ℕ → Action World Row
create_url long_url short_code custom_alias expires_at user_id password_hash domain_id =
    execute λ w.
      if any (has_code short_code) w.urls
      then (err unique_violation, w)
      else let url =
          new_url w long_url short_code custom_alias expires_at user_id password_hash domain_id in
        (
          ok (record { url = url; clicks_count = none }),
          record w { urls = w.urls ++ url ∷ []; next_url_id = w.next_url_id + 1 },
        )

unfoldable pub find_by_short_code : String → Action World (Option Url)
find_by_short_code code = query λ w. find (has_code code) w.urls

abbrev pub option_map {ℓ κ} : {A : Type ℓ} {B : Type κ} → (A → B) → Option A → Option B
option_map f none = none
option_map f (some a) = some (f a)

unfoldable pub find_by_short_code_for_user :
    String → Option String → Role → Action World (Option Row)
find_by_short_code_for_user code user_id role = query λ w.
    option_map (with_clicks w) (find (λ u. has_code code u && may_access role user_id u) w.urls)

unfoldable pub find_by_id : ℕ → Action World (Option Row)
find_by_id id = query λ w. option_map (with_clicks w) (find (λ (u : Url). u.id == id) w.urls)

unfoldable pub short_code_exists : String → Action World Bool
short_code_exists code = query λ w. any (has_code code) w.urls

abbrev pub editable : String → Option String → Role → Url → Bool
editable code user_id role url =
    has_code code url && is_true url.is_active && may_access role user_id url

abbrev pub edited : String → String → Option Bool → Option ℕ → Option String → Option ℕ → Url → Url
edited long_url short_code custom_alias expires_at password_hash domain_id url = record url {
  long_url = long_url;
  short_code = short_code;
  custom_alias = custom_alias;
  expires_at = expires_at;
  password_hash = password_hash;
  custom_domain_id = domain_id;
}

-- UPDATE … RETURNING *: the row that is changed must leave the codes distinct
unfoldable pub update_url :
    String
    → String
    → String
    → Option Bool
    → Option ℕ
    → Option String
    → Role
    → Option String
    → Option ℕ
    → Action World (Option Row)
update_url code long_url new_code custom_alias expires_at user_id role password_hash domain_id =
    execute λ w. elim (find (editable code user_id role) w.urls) [
      | none ↦ (ok none, w)
      | some old ↦
          if any (λ u. has_code new_code u && not (editable code user_id role u)) w.urls
          then (err unique_violation, w)
          else let change =
              edited long_url new_code custom_alias expires_at password_hash domain_id in
            (
              ok (some (record { url = change old; clicks_count = none })),
              record w { urls = update_where (editable code user_id role) change w.urls },
            )
    ]

abbrev pub deactivated : Url → Url
deactivated url = record url { is_active = some false }

unfoldable pub deactivate_url : String → Option String → Role → Action World Bool
deactivate_url code user_id role = execute λ w. (
  ok (any (editable code user_id role) w.urls),
  record w { urls = update_where (editable code user_id role) deactivated w.urls },
)

-- ORDER BY created_at DESC: an insertion sort, later rows first among equals
insert_by_age : Row → List Row → List Row
insert_by_age row [] = row ∷ []
insert_by_age row (other ∷ rows) =
    if leb other.url.created_at row.url.created_at
    then row ∷ other ∷ rows
    else other ∷ insert_by_age row rows

newest_first : List Row → List Row
unfolding insert_by_age
newest_first [] = []
newest_first (row ∷ rows) = insert_by_age row (newest_first rows)

unfoldable pub list_urls_for_user : Option String → Action World (List Row)
unfolding newest_first
list_urls_for_user user_id =
    query λ w.
      newest_first (map (with_clicks w) (select (λ (u : Url). sql_eq u.user_id user_id) w.urls))
