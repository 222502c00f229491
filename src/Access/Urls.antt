-- ===== src/Access/Urls.antt =====
-- utils/urlAccess.js: the identifier of a link in a path, and who may see the link.
use Prim.Native.String.{[], ◌∷◌}
use url_shortner_system_desi.Common.{
  ℕ, zero, suc, ◌+◌, ◌-◌, ◌*◌, ◌/◌, ◌%◌, ◌≤◌, ◌<◌, String, Bool, true, false, not, ◌&&◌, ◌||◌,
  Option, none, some, leb, ltb, if◌then◌else◌, arith, ◌≡◌, ◌⊎◌, refl, sym, ◌∙◌, ap, inl, inr,
  Bool-cases, Result, ok, err, Error, app_error, code, is_empty, push_digit, show_digits, show_nat,
}
use url_shortner_system_desi.State.{User, Url, is_admin, sql_eq}

abbrev pub max_url_id : ℕ
max_url_id = 9223372036854775807

abbrev pub is_decimal : ℕ → Bool
is_decimal c = leb 48 c && leb c 57

-- `/^\d+$/` and `BigInt` together: the number that the digits say
unfoldable pub read_onto : ℕ → String → Option ℕ
read_onto n [] = some n
read_onto n (c ∷ s) =
    let rest = read_onto (n * 10 + (code c - 48)) s in if is_decimal (code c) then rest else none

unfoldable pub read_number : String → Option ℕ
unfolding read_onto
read_number [] = none
read_number (c ∷ s) = read_onto 0 (c ∷ s)

abbrev pub invalid_id : Error
invalid_id = app_error "Invalid URL ID" 400

abbrev pub in_range : ℕ → Result ℕ
in_range n = if ltb n 1 || ltb max_url_id n then err invalid_id else ok n

abbrev pub of_number : Option ℕ → Result ℕ
of_number none = err invalid_id
of_number (some n) = in_range n

unfoldable pub parse_url_id : String → Result ℕ
unfolding read_number
parse_url_id raw = of_number (read_number raw)

abbrev pub not_found : Error
not_found = app_error "URL not found" 404

unfoldable pub see_link : User → Option Url → Result Url
see_link u none = err not_found
see_link u (some l) =
    if not (is_admin u.role) && not (sql_eq l.user_id (some u.id)) then err not_found else ok l

unfoldable pub access_as : Option User → (ℕ → Option Url) → Result ℕ → Result Url
unfolding see_link
access_as user find_url (err e) = err e
access_as none find_url (ok n) = err (app_error "Authentication required" 401)
access_as (some u) find_url (ok n) =
    if is_empty u.id then err (app_error "Authentication required" 401) else see_link u (find_url n)

unfoldable pub assert_url_access : String → Option User → (ℕ → Option Url) → Result Url
unfolding access_as
assert_url_access raw user find_url = access_as user find_url (parse_url_id raw)

read_onto-push_digit :
    (k d : ℕ) (s : String) → d < 10 → read_onto k (push_digit d s) ≡ read_onto (k * 10 + d) s
unfolding read_onto
read_onto-push_digit k zero s h = refl
read_onto-push_digit k (suc zero) s h = refl
read_onto-push_digit k (suc (suc zero)) s h = refl
read_onto-push_digit k (suc (suc (suc zero))) s h = refl
read_onto-push_digit k (suc (suc (suc (suc zero)))) s h = refl
read_onto-push_digit k (suc (suc (suc (suc (suc zero))))) s h = refl
read_onto-push_digit k (suc (suc (suc (suc (suc (suc zero)))))) s h = refl
read_onto-push_digit k (suc (suc (suc (suc (suc (suc (suc zero))))))) s h = refl
read_onto-push_digit k (suc (suc (suc (suc (suc (suc (suc (suc zero)))))))) s h = refl
read_onto-push_digit k (suc (suc (suc (suc (suc (suc (suc (suc (suc zero))))))))) s h = refl
read_onto-push_digit k (suc (suc (suc (suc (suc (suc (suc (suc (suc (suc d)))))))))) s h =
    absurd (omega arith)

read_onto-show_digits :
    (fuel n : ℕ) (s : String) → n < fuel → read_onto 0 (show_digits fuel n s) ≡ read_onto n s
unfolding show_digits
read_onto-show_digits zero n s h = absurd (omega arith)
read_onto-show_digits (suc fuel) n s h = elim (Bool-cases (ltb n 10)) [
  | inl small ↦
      rw small
        (read_onto-push_digit 0 n s (ground (arith, small)) ∙ ap (λ m. read_onto m s) (omega arith))
  | inr large ↦
      let less : n / 10 < fuel = ground (arith, large) in
      let split : n / 10 * 10 + n % 10 ≡ n = omega arith in
      rw large (
        read_onto-show_digits fuel (n / 10) (push_digit (n % 10) s) less
        ∙ read_onto-push_digit (n / 10) (n % 10) s (omega arith)
        ∙ ap (λ m. read_onto m s) split)
]

-- the digits of a number are no empty text
read_number_lem : (s : String) → is_empty s ≡ false → read_number s ≡ read_onto 0 s
unfolding read_number
read_number_lem [] h = absurd (ground arith)
read_number_lem (c ∷ s) h = refl

push_digit-full : (d : ℕ) (s : String) → d < 10 → is_empty (push_digit d s) ≡ false
push_digit-full zero s h = refl
push_digit-full (suc zero) s h = refl
push_digit-full (suc (suc zero)) s h = refl
push_digit-full (suc (suc (suc zero))) s h = refl
push_digit-full (suc (suc (suc (suc zero)))) s h = refl
push_digit-full (suc (suc (suc (suc (suc zero))))) s h = refl
push_digit-full (suc (suc (suc (suc (suc (suc zero)))))) s h = refl
push_digit-full (suc (suc (suc (suc (suc (suc (suc zero))))))) s h = refl
push_digit-full (suc (suc (suc (suc (suc (suc (suc (suc zero)))))))) s h = refl
push_digit-full (suc (suc (suc (suc (suc (suc (suc (suc (suc zero))))))))) s h = refl
push_digit-full (suc (suc (suc (suc (suc (suc (suc (suc (suc (suc d)))))))))) s h =
    absurd (omega arith)

show_digits-full : (fuel n : ℕ) (s : String) → n < fuel → is_empty (show_digits fuel n s) ≡ false
unfolding show_digits
show_digits-full zero n s h = absurd (omega arith)
show_digits-full (suc fuel) n s h = elim (Bool-cases (ltb n 10)) [
  | inl small ↦ rw small (push_digit-full n s (ground (arith, small)))
  | inr large ↦
      rw large (show_digits-full fuel (n / 10) (push_digit (n % 10) s) (ground (arith, large)))
]

read_number-show_nat : (n : ℕ) → read_number (show_nat n) ≡ some n
unfolding show_nat read_onto
read_number-show_nat n =
    read_number_lem (show_nat n) (show_digits-full (suc n) n [] (omega arith))
    ∙ read_onto-show_digits (suc n) n [] (omega arith)

-- An identifier is read back from the text that prints it exactly if it is one that the database can
-- give, from 1 to the largest signed number of 64 bits; every other number is refused with 400.
pub parse_url_id-show_nat :
    (n : ℕ)
    → ((1 ≤ n) × (n ≤ max_url_id) × (parse_url_id (show_nat n) ≡ ok n))
      ⊎ (((n < 1) ⊎ (max_url_id < n)) × (parse_url_id (show_nat n) ≡ err invalid_id))
unfolding parse_url_id
parse_url_id-show_nat n =
    let parsed : parse_url_id (show_nat n) ≡ in_range n = ap of_number (read_number-show_nat n) in
    elim (Bool-cases (ltb n 1 || ltb max_url_id n)) [
      | inl out ↦ inr (ground (arith, out), parsed ∙ rw out refl)
      | inr fits ↦ inl (ground (arith, fits), ground (arith, fits), parsed ∙ rw fits refl)
    ]

-- What a user may see of an answer of the database.
abbrev pub own : User → Option Url → Option Url
own u none = none
own u (some l) = if sql_eq l.user_id (some u.id) then some l else none

own_mine : (u : User) (l : Url) → sql_eq l.user_id (some u.id) ≡ true → own u (some l) ≡ some l
own_mine u l mine = rw mine refl

own_alien : (u : User) (l : Url) → sql_eq l.user_id (some u.id) ≡ false → own u (some l) ≡ none
own_alien u l alien = rw alien refl

see_link-own :
    (u : User) (o : Option Url) → is_admin u.role ≡ false → see_link u o ≡ see_link u (own u o)
unfolding see_link
see_link-own u none h = refl
see_link-own u (some l) h = elim (Bool-cases (sql_eq l.user_id (some u.id))) [
  | inl mine ↦ ap (see_link u) (sym (own_mine u l mine))
  | inr alien ↦ rw (alien, h) refl ∙ ap (see_link u) (sym (own_alien u l alien))
]

module _ (u : User) (before after : ℕ → Option Url) (h : is_admin u.role ≡ false)
    (same : (n : ℕ) → own u (before n) ≡ own u (after n)) where
  access_as-own : (r : Result ℕ) → access_as (some u) before r ≡ access_as (some u) after r
  unfolding access_as
  access_as-own (err e) = refl
  access_as-own (ok n) =
      let seen =
        see_link-own u (before n) h ∙ ap (see_link u) (same n) ∙ sym (see_link-own u (after n) h) in
      rw seen refl

-- The answer to a user who is no administrator depends on the user's own links alone: two tables
-- that agree in these are answered alike, so that a link of another user cannot be told from one
-- that does not exist.
pub assert_url_access-hides :
    (raw : String) (u : User) (before after : ℕ → Option Url)
    → is_admin u.role ≡ false
    → ((n : ℕ) → own u (before n) ≡ own u (after n))
    → assert_url_access raw (some u) before ≡ assert_url_access raw (some u) after
unfolding assert_url_access
assert_url_access-hides raw u before after h same =
    access_as-own u before after h same (parse_url_id raw)
