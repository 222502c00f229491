-- ===== src/ShortCode/Tests.antt =====
-- The retry loop and the generator at concrete inputs.
use url_shortner_system_desi.Common.{
  true, ℕ, zero, suc, ◌<◌, ◌≡◌, refl, String, List, [], ◌∷◌, none, some, ok, err, Result, Error,
  Action, arith, app_error, str_eq, any, if◌then◌else◌, count_chars,
}
use url_shortner_system_desi.ShortCode.{
  generate_short_code, validate_short_code_param, insert_with_unique_code, no_code_error,
  attempt_insert, is_short_code_conflict,
}
use url_shortner_system_desi.ShortCode.Format.{generate_short_code-is_valid}
use url_shortner_system_desi.ShortCode.Retry.{
  insert_with_unique_code-first_settled, insert_with_unique_code-exhausted, Collides,
}

-- a table of codes under a unique index
abbrev conflict : Error
conflict = record (app_error "duplicate key" 500) {
  code = some "23505";
  constraint = some "Url_short_code_key";
}

abbrev put : String → Action (List String) String
put c w = if any (str_eq c) w then (err conflict, w) else (ok c, c ∷ w)

abbrev table : List String
table = "aaaaaaa" ∷ []

abbrev second_is_free : ℕ → Result String
second_is_free zero = ok "aaaaaaa"
second_is_free (suc i) = ok "bbbbbbb"

abbrev always_taken : ℕ → Result String
always_taken i = ok "aaaaaaa"

attempt_taken : (j : ℕ) → attempt_insert put always_taken j table ≡ (err conflict, table)
unfolding attempt_insert
attempt_taken j = refl

is_conflict : is_short_code_conflict conflict ≡ true
unfolding is_short_code_conflict
is_conflict = refl

first_taken : (j : ℕ) → j < 1 → Collides put second_is_free table j
unfolding attempt_insert
first_taken zero lt = (conflict, refl, is_conflict)
first_taken (suc j) lt = absurd (omega arith)

second_put : attempt_insert put second_is_free 1 table ≡ (ok "bbbbbbb", "bbbbbbb" ∷ table)
unfolding attempt_insert
second_put = refl

insert_with_unique_code-first_settled_example :
    insert_with_unique_code put second_is_free 10 table ≡ (ok "bbbbbbb", "bbbbbbb" ∷ table)
insert_with_unique_code-first_settled_example =
    insert_with_unique_code-first_settled put second_is_free table 10 1
      (ok "bbbbbbb", "bbbbbbb" ∷ table) first_taken second_put tt (omega arith)

all_taken : (j : ℕ) → j < 10 → Collides put always_taken table j
all_taken j lt = (conflict, attempt_taken j, is_conflict)

insert_with_unique_code-exhausted_example :
    insert_with_unique_code put always_taken 10 table ≡ (err no_code_error, table)
insert_with_unique_code-exhausted_example =
    insert_with_unique_code-exhausted put always_taken table 10 all_taken

generate_short_code-is_valid_example :
    (s : String) × (generate_short_code (λ i. 61) 7 ≡ ok s)
    × (validate_short_code_param (some s) ≡ none)
    × (count_chars s ≡ 7)
generate_short_code-is_valid_example =
    generate_short_code-is_valid (λ i. 61) 7 (λ i. omega arith) (omega arith) (omega arith)
