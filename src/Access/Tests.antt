-- ===== src/Access/Tests.antt =====
-- The statements about suspensions and administrators at concrete inputs.
use url_shortner_system_desi.Common.{
  ℕ, ◌≤◌, String, true, false, none, some, [], ◌∷◌, ok, err, arith, ◌≡◌, refl, any,
}
use url_shortner_system_desi.State.{user, admin}
use url_shortner_system_desi.Auth.{is_live_of}
use url_shortner_system_desi.Access.State.{active, suspended, banned, Person, Realm}
use url_shortner_system_desi.Access.Gate.{
  auth_middleware, bearer_token, Claims, TokenCheck, valid, account_suspended,
}
use url_shortner_system_desi.Access.Admin.{update_user_status, update_user_role}
use url_shortner_system_desi.Access.Suspension.{suspended_user_is_refused}
use url_shortner_system_desi.Access.Administrators.{
  admins, role_change_keeps_admin, last_admin_can_be_suspended,
}

abbrev ann : Person
ann = record {
  id = "ann";
  email = "ann@x.in";
  role = admin;
  status = active;
  token_version = 3;
  password_hash = none;
}

abbrev bob : Person
bob = record ann { id = "bob"; email = "bob@x.in"; role = user }

abbrev realm : Realm
realm = record {
  now = 1000;
  db_error = none;
  people = ann ∷ bob ∷ [];
  members = [];
  tokens =
      record { id = 1; user_id = "bob"; token_hash = "t1"; expires_at = 9000; revoked = false }
      ∷ [];
  redis_ready = true;
  redis_fails = false;
  statuses = ("bob", record { value = active; expires = 9000 }) ∷ [];
}

abbrev claims_of_bob : Claims
claims_of_bob = record { user_id = "bob"; token_version = none }

abbrev verify : ℕ → String → TokenCheck
verify now token = valid claims_of_bob

bearer : bearer_token (some "Bearer jwt") ≡ some "jwt"
unfolding bearer_token
bearer = refl

suspended_user_is_refused_example :
    ((auth_middleware verify
        (some "Bearer jwt")
        (update_user_status "bob" (some suspended) realm).1).0
      ≡ err account_suspended)
    × (any (is_live_of "bob") (update_user_status "bob" (some suspended) realm).1.tokens ≡ false)
suspended_user_is_refused_example =
    suspended_user_is_refused verify "bob" "jwt" "Bearer jwt" suspended claims_of_bob realm bob refl
      refl refl refl bearer refl refl

role_change_keeps_admin_example : 1 ≤ admins (update_user_role "ann" (some user) realm).1.people
role_change_keeps_admin_example =
    role_change_keeps_admin "ann" realm (some user) (omega arith) (omega arith)

last_admin_can_be_suspended_example :
    ((update_user_status "ann" (some banned) realm).0 ≡ ok tt)
    × (admins (update_user_status "ann" (some banned) realm).1.people ≡ 0)
last_admin_can_be_suspended_example =
    last_admin_can_be_suspended "ann" banned realm ann refl refl refl refl refl
