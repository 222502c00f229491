-- ===== src/Access/Suspension.antt =====
-- What a suspension or a ban does to the tokens that the user still holds.
use url_shortner_system_desi.Common.{
  find-update_row, ◌∙◌, bind-ok, ap, bind-ok, ℕ, ◌+◌, String, true, false, none, some, ok, err,
  Error, arith, ◌≡◌, refl, app_error, if◌then◌else◌, find, find_sound, any, update_where, erase,
  lookup-erase, eq_iff, eq_refl, Bool-cases, inl, inr,
}
use url_shortner_system_desi.Auth.{redis_set, is_live_of, revoked_form}
use url_shortner_system_desi.Auth.Rotation.{any_live-revoke}
use url_shortner_system_desi.Access.State.{
  AccountStatus, active, suspended, banned, is_active, same_status, Person, Realm,
}
use url_shortner_system_desi.Access.Gate.{
  is_person, redis_answers, cached_status, get_user_status_cached, auth_middleware, bearer_token,
  Claims, TokenCheck, valid, stale, account_suspended, account_banned, authenticate, check_token,
  check_person, admit, invalidate_user_status_cache,
}
use url_shortner_system_desi.Access.Admin.{
  with_status, next_version, update_user_status, change_status, end_sessions, set_person,
}
use url_shortner_system_desi.Access.{ask, keep_status, status_cache_ttl, read_status, use_cached}

abbrev pub refusal : AccountStatus → Error
refusal banned = account_banned
refusal _ = account_suspended

-- the state after a suspension or a ban
abbrev pub ended : String → AccountStatus → Realm → Realm
ended id status w = record w {
  people =
      update_where (is_person id) next_version
        (update_where (is_person id) (with_status status) w.people);
  tokens = update_where (is_live_of id) revoked_form w.tokens;
  statuses = if redis_answers w then erase id w.statuses else w.statuses;
}

pub update_user_status-ended :
    (id : String) (status : AccountStatus) (w : Realm) (p : Person)
    → w.db_error ≡ none
    → find (is_person id) w.people ≡ some p
    → same_status p.status status ≡ false
    → is_active status ≡ false
    → update_user_status id (some status) w ≡ (ok tt, ended id status w)
unfolding update_user_status change_status end_sessions set_person invalidate_user_status_cache
update_user_status-ended id active w p up found changed out = ground arith
update_user_status-ended id suspended w p up found changed out = ground arith
update_user_status-ended id banned w p up found changed out = ground arith

cached_status-erased :
    (id : String) (status : AccountStatus) (w : Realm) → cached_status id (ended id status w) ≡ none
cached_status-erased id status w = elim (Bool-cases (redis_answers w)) [
  | inl ready ↦ rw (ready, lookup-erase id id w.statuses, eq_refl id) refl
  | inr away ↦ rw away refl
]

abbrev kept : String → Person → Realm → Realm
kept id p w = record w {
  statuses =
      if redis_answers w
      then redis_set w.now id p.status status_cache_ttl w.statuses
      else w.statuses;
}

get_user_status_cached-read :
    (id : String) (w : Realm) (p : Person)
    → w.db_error ≡ none
    → find (is_person id) w.people ≡ some p
    → cached_status id w ≡ none
    → get_user_status_cached id w ≡ (ok (some p.status), kept id p w)
unfolding get_user_status_cached use_cached read_status keep_status
get_user_status_cached-read id w p up found none_kept = ground arith

ask-up : {A : Type 0} (f : Realm → A) (w : Realm) → w.db_error ≡ none → ask f w ≡ (ok (f w), w)
ask-up f w up = rw up refl

check_token-found :
    (id : String) (claims : Claims) (w : Realm) (p : Person)
    → w.db_error ≡ none
    → find (is_person id) w.people ≡ some p
    → claims.user_id ≡ id
    → check_token (valid claims) w ≡ check_person claims (some p) w
unfolding check_token
check_token-found id claims w p up found owner =
    let asked = ask-up (λ v. find (is_person claims.user_id) v.people) w up in
    let row : find (is_person claims.user_id) w.people ≡ some p = rw owner found in
    bind-ok (ask (λ v. find (is_person claims.user_id) v.people)) (check_person claims) asked
    ∙ ap (λ o. check_person claims o w) row

abbrev expected : Claims → AccountStatus → Person → Error
expected claims status p =
    if stale claims.token_version p.token_version
    then app_error "Session expired. Please sign in again." 401
    else refusal status

check_person-refused :
    (id : String) (status : AccountStatus) (claims : Claims) (w v : Realm) (p : Person)
    → get_user_status_cached p.id w ≡ (ok (some status), v)
    → is_active status ≡ false
    → (check_person claims (some p) w).0 ≡ err (expected claims status p)
unfolding check_person admit
check_person-refused id active claims w v p read out = ground arith
check_person-refused id suspended claims w v p read out = ground arith
check_person-refused id banned claims w v p read out = ground arith

refusal-operational :
    (claims : Claims) (status : AccountStatus) (p : Person)
    → (expected claims status p).is_operational ≡ true
refusal-operational claims active p = ground arith
refusal-operational claims suspended p = ground arith
refusal-operational claims banned p = ground arith

module _ (verify : ℕ → String → TokenCheck) where
  auth-refused :
      (id token header : String) (claims : Claims) (w : Realm) (p : Person)
      → w.db_error ≡ none
      → find (is_person id) w.people ≡ some p
      → p.id ≡ id
      → is_active p.status ≡ false
      → cached_status id w ≡ none
      → bearer_token (some header) ≡ some token
      → verify w.now token ≡ valid claims
      → claims.user_id ≡ id
      → (auth_middleware verify (some header) w).0
        ≡ err (
            if stale claims.token_version p.token_version
            then app_error "Session expired. Please sign in again." 401
            else refusal p.status)
  unfolding auth_middleware authenticate
  auth-refused id token header claims w p up found same out empty bearer check owner =
      let read = get_user_status_cached-read id w p up found empty in
      let no = check_person-refused id p.status claims w (kept id p w) p (rw same read) out in
      let checked = check_token-found id claims w p up found owner in
      rw (bearer, check, checked) (ground (arith, no, refusal-operational claims p.status p))

  -- A token of a user who has just been suspended or banned is refused: with status 401 where the
  -- token's version is not the new one, and with status 403 otherwise. No refresh token of the
  -- user is left that is not revoked. Redis may be down.
  pub suspended_user_is_refused :
      (id token header : String) (status : AccountStatus) (claims : Claims) (w : Realm) (p : Person)
      → w.db_error ≡ none
      → find (is_person id) w.people ≡ some p
      → same_status p.status status ≡ false
      → is_active status ≡ false
      → bearer_token (some header) ≡ some token
      → verify w.now token ≡ valid claims
      → claims.user_id ≡ id
      → ((auth_middleware verify (some header) (update_user_status id (some status) w).1).0
          ≡ err (
              if stale claims.token_version (p.token_version + 1)
              then app_error "Session expired. Please sign in again." 401
              else refusal status))
        × (any (is_live_of id) (update_user_status id (some status) w).1.tokens ≡ false)
  suspended_user_is_refused id token header status claims w p up found changed out bearer check
        owner =
      let done = update_user_status-ended id status w p up found changed out in
      let same : p.id ≡ id = (eq_iff p.id id).0 (find_sound (is_person id) w.people p found) in
      let p' = next_version (with_status status p) in
      let once = find-update_row (is_person id) (with_status status) w.people p (λ q. refl) found in
      let twice =
        find-update_row (is_person id) next_version _ (with_status status p) (λ q. refl) once in
      let refused =
        auth-refused id token header claims (ended id status w) p' up twice same out
          (cached_status-erased id status w) bearer check owner in
      rw done (refused, any_live-revoke id w.tokens)
