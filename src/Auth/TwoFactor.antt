-- ===== src/Auth/TwoFactor.antt =====
-- services/twoFactor.service.js, and the backup codes of services/auth.service.js. `totp` is
-- `verifySync`, `seal` and `open_secret` are `encryptSecret` and `decryptSecret`, `digest` is SHA-256
-- in hexadecimal.
use Prim.Native.String.{[], ◌∷◌}
use url_shortner_system_desi.Common.{
  ℕ, String, Bool, true, false, not, ◌||◌, Option, none, some, List, Action, if◌then◌else◌, str_eq,
  pure, gets, modify, throw, throw_if, ◌>>=◌, ◌>>◌, app_error, map, erase, trim, lowercase,
  is_space, code,
}
use url_shortner_system_desi.Auth.State.{Server, Account, redis_get, redis_set}
use url_shortner_system_desi.Auth.Sessions.{find_user_by_id, update_user}

abbrev pub invalid_code : String
invalid_code = "Invalid authenticator code or backup code"

-- the rest of a list after the first entry that is the text, where there is one
unfoldable pub splice_first : String → List String → Option (List String)
splice_first hash List.[] = none
splice_first hash (List.◌∷◌ h hs) =
    let rest = splice_first hash hs in
    if str_eq h hash then some hs else elim rest [ none ↦ none | some t ↦ some (List.◌∷◌ h t) ]

-- `replace(/\s/g, "").replace(/-/g, "")`
unfoldable pub without_marks : String → String
unfolding is_space
without_marks [] = []
without_marks (c ∷ s) =
    let rest = without_marks s in
    if is_space (code c) || str_eq (c ∷ []) "-" then rest else c ∷ rest

unfoldable pub normalized_code : String → String
unfolding trim lowercase without_marks
normalized_code code = without_marks (lowercase (trim code))

module _ (digest : String → String) where
  unfoldable pub use_backup_codes : String → Option (List String) → Action Server (Unit {0})
  unfolding update_user
  use_backup_codes id none = throw (app_error invalid_code 400)
  use_backup_codes id (some rest) =
      update_user id (λ a. record a { two_factor_backup_codes = some rest })

  unfoldable pub check_backup_codes :
      String → String → Option (List String) → Action Server (Unit {0})
  unfolding use_backup_codes splice_first normalized_code
  check_backup_codes id code none = throw (app_error invalid_code 400)
  check_backup_codes id code (some hashes) =
      use_backup_codes id (splice_first (digest (normalized_code code)) hashes)

  unfoldable pub verify_backup_code : Account → String → Action Server (Unit {0})
  unfolding check_backup_codes
  verify_backup_code account code =
      check_backup_codes account.id code account.two_factor_backup_codes

module _ (totp : String → String → Bool) (open_secret : String → String) where
  abbrev pub not_enabled : Option Account → Bool
  not_enabled none = true
  not_enabled (some a) = not a.two_factor_enabled

  unfoldable pub check_totp : String → Option String → String → Action Server (Unit {0})
  check_totp otp none refusal = throw (app_error refusal 400)
  check_totp otp (some secret) refusal =
      throw_if (not (totp (open_secret secret) otp)) (app_error "Invalid authenticator code" 400)

  unfoldable pub use_second_factor : String → Option Account → Action Server (Unit {0})
  unfolding check_totp
  use_second_factor otp none =
      throw (app_error "Two-factor authentication is not enabled for this account" 400)
  use_second_factor otp (some a) = do
    throw_if (not a.two_factor_enabled)
        (app_error "Two-factor authentication is not enabled for this account" 400)
    check_totp otp a.two_factor_secret "Two-factor authentication is not enabled for this account"

  unfoldable pub verify_two_factor_login : String → String → Action Server (Unit {0})
  unfolding use_second_factor find_user_by_id
  verify_two_factor_login user_id otp = do
    found ← find_user_by_id user_id
    use_second_factor otp found

abbrev pub pending_2fa_ttl_seconds : ℕ
pending_2fa_ttl_seconds = 600

unfoldable pub begin_setup : String → Option Account → String → Action Server String
begin_setup id none secret = throw (app_error "User not found" 404)
begin_setup id (some a) secret = do
  throw_if a.two_factor_enabled (app_error "Two-factor authentication is already enabled" 400)
  modify (λ s. record s {
    pending_secrets = redis_set s.now id secret pending_2fa_ttl_seconds s.pending_secrets;
  })
  pure secret

-- the secret that is drawn is what the answer shows
unfoldable pub setup_two_factor : String → String → Action Server String
unfolding begin_setup find_user_by_id
setup_two_factor user_id secret = do
  found ← find_user_by_id user_id
  begin_setup user_id found secret

-- `codes` are the eight backup codes that are drawn, without their dashes
module _ (totp : String → String → Bool) (seal open_secret digest : String → String) where
  unfoldable pub finish_setup :
      String → String → List String → Option String → Action Server (Unit {0})
  unfolding update_user
  finish_setup id otp codes none =
      throw (app_error "Setup expired. Generate a new QR code and try again." 400)
  finish_setup id otp codes (some secret) = do
    throw_if (not (totp secret otp)) (app_error "Invalid authenticator code" 400)
    update_user id (λ a. record a {
      two_factor_enabled = true;
      two_factor_secret = some (seal secret);
      two_factor_backup_codes = some (map digest codes);
    })
    modify (λ s. record s { pending_secrets = erase id s.pending_secrets })

  unfoldable pub enable_account :
      String → String → List String → Option Account → Action Server (Unit {0})
  unfolding finish_setup
  enable_account id otp codes none = throw (app_error "User not found" 404)
  enable_account id otp codes (some a) = do
    throw_if a.two_factor_enabled (app_error "Two-factor authentication is already enabled" 400)
    pending ← gets (λ (s : Server). redis_get s.now id s.pending_secrets)
    finish_setup id otp codes pending

  unfoldable pub enable_two_factor : String → String → List String → Action Server (Unit {0})
  unfolding enable_account find_user_by_id
  enable_two_factor user_id otp codes = do
    found ← find_user_by_id user_id
    enable_account user_id otp codes found

  unfoldable pub disable_account : String → String → Option Account → Action Server (Unit {0})
  unfolding check_totp update_user
  disable_account id otp none = throw (app_error "User not found" 404)
  disable_account id otp (some a) = do
    throw_if (not a.two_factor_enabled) (app_error "Two-factor authentication is not enabled" 400)
    check_totp totp open_secret otp a.two_factor_secret "Two-factor authentication is not enabled"
    update_user id (λ b. record b {
      two_factor_enabled = false;
      two_factor_secret = none;
      two_factor_backup_codes = none;
    })

  unfoldable pub disable_two_factor : String → String → Action Server (Unit {0})
  unfolding disable_account find_user_by_id
  disable_two_factor user_id otp = do
    found ← find_user_by_id user_id
    disable_account user_id otp found
