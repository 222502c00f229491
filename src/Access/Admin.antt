-- ===== src/Access/Admin.antt =====
-- The changes of statuses and roles in controllers/admin.controller.js. The mail to the user, whose
-- failure is only logged, and the answer's texts are left out.
use url_shortner_system_desi.Common.{
  ◌+◌, String, Bool, ◌&&◌, Option, none, some, Action, app_error, if◌then◌else◌, leb, find, count,
  update_where, pure, throw, throw_if, ◌>>=◌, ◌>>◌,
}
use url_shortner_system_desi.State.{Role, user, admin, is_admin}
use url_shortner_system_desi.Auth.{is_live_of, revoked_form}
use url_shortner_system_desi.Access.State.{
  AccountStatus, active, is_active, same_status, Person, Realm, ask, write,
}
use url_shortner_system_desi.Access.Gate.{is_person, invalidate_user_status_cache, same_role}

abbrev pub with_status : AccountStatus → Person → Person
with_status status p = record p { status = status }

abbrev pub with_role : Role → Person → Person
with_role role p = record p { role = role }

abbrev pub next_version : Person → Person
next_version p = record p { token_version = p.token_version + 1 }

unfoldable pub set_person : String → (Person → Person) → Action Realm (Unit {0})
set_person id f = write (λ w. record w { people = update_where (is_person id) f w.people })

-- the sessions of a suspended or banned user end
unfoldable pub end_sessions : String → AccountStatus → Action Realm (Unit {0})
unfolding set_person
end_sessions id active = pure tt
end_sessions id _ = do
  set_person id next_version
  write (λ w. record w { tokens = update_where (is_live_of id) revoked_form w.tokens })

unfoldable pub change_status : String → AccountStatus → Option Person → Action Realm (Unit {0})
unfolding set_person end_sessions invalidate_user_status_cache
change_status id status none = throw (app_error "User not found" 404)
change_status id status (some p) = if same_status p.status status then pure tt else (do
  set_person id (with_status status)
  invalidate_user_status_cache id
  end_sessions id status)

-- `none` is a status that is none of the three
unfoldable pub update_user_status : String → Option AccountStatus → Action Realm (Unit {0})
unfolding change_status
update_user_status id none = throw (app_error "Invalid status value" 400)
update_user_status id (some status) = do
  row ← ask (λ w. find (is_person id) w.people)
  change_status id status row

abbrev pub is_active_admin : Person → Bool
is_active_admin p = is_admin p.role && is_active p.status

unfoldable pub guard_last_admin : Role → Role → Action Realm (Unit {0})
guard_last_admin admin user = do
  admins ← ask (λ w. count is_active_admin w.people)
  throw_if (leb admins 1) (app_error "Cannot demote the last remaining active admin." 400)
guard_last_admin _ _ = pure tt

unfoldable pub change_role : String → Role → Option Person → Action Realm (Unit {0})
unfolding guard_last_admin set_person
change_role id role none = throw (app_error "User not found" 404)
change_role id role (some p) =
    if same_role p.role role
    then pure tt
    else (do guard_last_admin p.role role; set_person id (with_role role))

unfoldable pub update_user_role : String → Option Role → Action Realm (Unit {0})
unfolding change_role
update_user_role id none = throw (app_error "Invalid role value" 400)
update_user_role id (some role) = do
  row ← ask (λ w. find (is_person id) w.people)
  change_role id role row
