-- ===== src/Auth/Enrolment.antt =====
-- The second factor: what is enrolled is what a login asks for.
use url_shortner_system_desi.Common.{
  String, Bool, true, false, some, List, find, map, update_where, ◌≡◌, erase,
}
use url_shortner_system_desi.Auth.State.{Server, Account, redis_get}
use url_shortner_system_desi.Auth.Sessions.{is_account}
use url_shortner_system_desi.Auth.TwoFactor.{enable_two_factor}

-- The account that an enrolment leaves.
abbrev enrolled : String → List String → Account → Account
enrolled sealed hashes a = record a {
  two_factor_enabled = true;
  two_factor_secret = some sealed;
  two_factor_backup_codes = some hashes;
}

module _ (totp : String → String → Bool) (seal open_secret digest : String → String)
    (opens : (secret : String) → open_secret (seal secret) ≡ secret) (id otp secret : String)
    (codes : List String) (s : Server) (a : Account)
    (has_row : find (is_account id) s.accounts ≡ some a) (fresh : a.two_factor_enabled ≡ false)
    (pending : redis_get s.now id s.pending_secrets ≡ some secret)
    (right : totp secret otp ≡ true) where
  abbrev sealed_secret : String
  sealed_secret = seal secret

  abbrev hashes : List String
  hashes = map digest codes

  abbrev pub after : Server
  after = (enable_two_factor totp seal open_secret digest id otp codes s).1

  abbrev enrolled_state : Server
  enrolled_state = record s {
    accounts = update_where (is_account id) (enrolled sealed_secret hashes) s.accounts;
    pending_secrets = erase id s.pending_secrets;
  }
