-- ===== src/Access/Gate.antt =====
-- The middlewares. `none` among the outcomes of a check is a call of `next()`.
use url_shortner_system_desi.Common.{
  nonempty, drop_prefix, ℕ, String, Bool, true, false, not, ◌&&◌, ◌||◌, Option, none, some, List,
  Action, Result, ok, err, Error, app_error, app_error_with, if◌then◌else◌, ◌==◌, str_eq, find, any,
  erase, pure, throw, throw_if, gets, modify, ◌>>=◌, ◌>>◌, concat,
}
use url_shortner_system_desi.State.{Role, user, admin, is_admin}
use url_shortner_system_desi.Auth.{redis_get, redis_set}
use url_shortner_system_desi.Access.State.{
  AccountStatus, active, suspended, banned, Person, Caller, Realm, ask, TeamMember, TeamRole, owner,
  team_admin, member, InviteStatus, accepted,
}

abbrev pub status_cache_ttl : ℕ
status_cache_ttl = 300

abbrev pub is_person : String → Person → Bool
is_person id p = str_eq p.id id

abbrev pub redis_answers : Realm → Bool
redis_answers w = w.redis_ready && not w.redis_fails

abbrev pub cached_status : String → Realm → Option AccountStatus
cached_status id w = if redis_answers w then redis_get w.now id w.statuses else none

-- the SET, whose failure is only logged
unfoldable pub keep_status : String → AccountStatus → Action Realm (Unit {0})
keep_status id status = modify (λ w. record w {
  statuses =
      if redis_answers w then redis_set w.now id status status_cache_ttl w.statuses else w.statuses;
})

unfoldable pub read_status : String → Option Person → Action Realm (Option AccountStatus)
unfolding keep_status
read_status id none = pure none
read_status id (some p) = do keep_status id p.status; pure (some p.status)

unfoldable pub use_cached : String → Option AccountStatus → Action Realm (Option AccountStatus)
unfolding read_status
use_cached id (some status) = pure (some status)
use_cached id none = do row ← ask (λ w. find (is_person id) w.people); read_status id row

unfoldable pub get_user_status_cached : String → Action Realm (Option AccountStatus)
unfolding use_cached
get_user_status_cached id = do cached ← gets (cached_status id); use_cached id cached

unfoldable pub invalidate_user_status_cache : String → Action Realm (Unit {0})
invalidate_user_status_cache id =
    modify
      (λ w. record w { statuses = if redis_answers w then erase id w.statuses else w.statuses })

-- what `jwt.verify` makes of a token; a token without a version has `none`
pub record Claims : Type 0 where
  pub user_id : String
  pub token_version : Option ℕ

pub data TokenCheck : Type 0 where
  valid : Claims → TokenCheck
  expired malformed : TokenCheck

-- `header.startsWith("Bearer ") ? header.slice(7) : null`, an empty token being none
unfoldable pub bearer_token : Option String → Option String
unfolding drop_prefix
bearer_token none = none
bearer_token (some header) = nonempty (drop_prefix "Bearer " header)

abbrev pub caller_of : Person → Caller
caller_of p = record { id = p.id; email = p.email; role = p.role }

abbrev pub stale : Option ℕ → ℕ → Bool
stale none version = false
stale (some claimed) version = not (claimed == version)

abbrev pub account_suspended : Error
account_suspended =
    app_error_with "Account suspended. Please contact support." 403 none (some "ACCOUNT_SUSPENDED")

abbrev pub account_banned : Error
account_banned = app_error_with "Account banned." 403 none (some "ACCOUNT_BANNED")

unfoldable pub admit : Person → Option AccountStatus → Action Realm Caller
admit p none = throw (app_error "User account not found" 401)
admit p (some active) = pure (caller_of p)
admit p (some suspended) = throw account_suspended
admit p (some banned) = throw account_banned

unfoldable pub check_person : Claims → Option Person → Action Realm Caller
unfolding admit get_user_status_cached
check_person claims none = throw (app_error "User not found" 401)
check_person claims (some p) = do
  throw_if (stale claims.token_version p.token_version)
      (app_error "Session expired. Please sign in again." 401)
  status ← get_user_status_cached p.id
  admit p status

unfoldable pub check_token : TokenCheck → Action Realm Caller
unfolding check_person
check_token expired = throw (app_error "Token expired" 401)
check_token malformed = throw (app_error "Invalid or expired token" 401)
check_token (valid claims) = do
  row ← ask (λ w. find (is_person claims.user_id) w.people)
  check_person claims row

-- the `catch`: an error that is no `AppError` becomes a refusal of the token
abbrev pub recovered : Result Caller × Realm → Result Caller × Realm
recovered (ok c, w) = (ok c, w)
recovered (err e, w) =
    (err (if e.is_operational then e else app_error "Invalid or expired token" 401), w)

-- `verify now token` is `jwt.verify` under the secret of the server.
module _ (verify : ℕ → String → TokenCheck) where
  unfoldable pub authenticate : Option String → Action Realm Caller
  unfolding check_token
  authenticate none = throw (app_error "Authentication required" 401)
  authenticate (some token) = do now ← gets (λ (w : Realm). w.now); check_token (verify now token)

  unfoldable pub auth_middleware : Option String → Action Realm Caller
  unfolding authenticate bearer_token
  auth_middleware header w = recovered (authenticate (bearer_token header) w)

-- `roles.includes(role)`
abbrev pub same_role : Role → Role → Bool
same_role user user = true
same_role admin admin = true
same_role _ _ = false

-- `authorize`, and `requireRole` of role.middleware.js with its own messages
unfoldable pub authorize : List Role → Option Caller → Option Error
authorize roles none = some (app_error "Authentication required" 401)
authorize roles (some c) =
    if any (same_role c.role) roles
    then none
    else some (app_error "Forbidden: You do not have permission to perform this action" 403)

-- `owner_id` is what `getOwnerId(req)` gave
unfoldable pub require_ownership : String → Option String → Caller → Option Error
require_ownership resource none c =
    some (app_error (concat (List.◌∷◌ resource (List.◌∷◌ " not found" List.[]))) 404)
require_ownership resource (some owner_id) c =
    if str_eq owner_id c.id || is_admin c.role
    then none
    else some (app_error (concat (List.◌∷◌ resource (List.◌∷◌ " not found" List.[]))) 404)

abbrev pub same_team_role : TeamRole → TeamRole → Bool
same_team_role owner owner = true
same_team_role team_admin team_admin = true
same_team_role member member = true
same_team_role _ _ = false

abbrev pub is_accepted : InviteStatus → Bool
is_accepted accepted = true
is_accepted _ = false

unfoldable pub check_member : List TeamRole → Option TeamMember → Action Realm TeamMember
check_member roles none = throw (app_error "Forbidden: You do not belong to this team" 403)
check_member roles (some m) = do
  throw_if (not (is_accepted m.status)) (app_error "Forbidden: You do not belong to this team" 403)
  throw_if (not (any (same_team_role m.role) roles))
      (app_error "Forbidden: You do not have the required team role" 403)
  pure m

-- the result is `req.teamMember`
unfoldable pub require_team_role : List TeamRole → Option String → Caller → Action Realm TeamMember
unfolding check_member
require_team_role roles none c = throw (app_error "Team ID is required" 400)
require_team_role roles (some team_id) c = do
  row ←
      ask (λ w.
        find (λ (m : TeamMember). str_eq m.team_id team_id && str_eq m.user_id c.id) w.members)
  check_member roles row
