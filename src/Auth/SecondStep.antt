-- ===== src/Auth/SecondStep.antt =====
-- services/auth.service.js: new codes, the second step of a login, and forced changes of passwords.
use url_shortner_system_desi.Common.{
  ℕ, String, Bool, true, false, not, ◌&&◌, ◌||◌, Option, none, some, Action, if◌then◌else◌, str_eq,
  ◌==◌, pure, throw, throw_if, ◌>>=◌, ◌>>◌, app_error, Result, ok, err, lowercase, trim, includes,
  count_chars, is_empty,
}
use url_shortner_system_desi.Auth.State.{Server, Account}
use url_shortner_system_desi.Auth.Otp.{otp_key, verify_otp}
use url_shortner_system_desi.Auth.Sessions.{
  TokenPair, find_user_by_id, find_user_by_email, update_user, create_refresh_token_record,
}
use url_shortner_system_desi.Auth.TwoFactor.{verify_backup_code, verify_two_factor_login}
use url_shortner_system_desi.Auth.Accounts.{
  Mail, SignIn, signed_in, must_change_password, send_code, record_login_attempt,
  with_auth_error_handling,
}

-- a code with a dash, or of another length than six
unfoldable pub is_backup_code : String → Bool
unfolding includes trim
is_backup_code otp = includes "-" otp || not (count_chars (trim otp) == 6)

abbrev pub reason_of : String → String
reason_of message = if is_empty message then "OTP/MFA verification failed" else message

-- `catch (err) { await recordLoginAttempt(…); throw err; }`
unfoldable pub recorded : String → Result (Unit {0}) → Action Server (Unit {0})
unfolding record_login_attempt
recorded id (ok a) = pure tt
recorded id (err e) = do
  record_login_attempt (some id) false (reason_of e.message) "medium"
  throw e

module _ (refresh_days : ℕ) (hash_token : String → String) where
  unfoldable pub issue_token_pair : Account → String → Action Server TokenPair
  unfolding create_refresh_token_record with_auth_error_handling
  issue_token_pair a fresh = do
    with_auth_error_handling (create_refresh_token_record refresh_days hash_token a.id fresh)
        "We couldn't complete sign-in right now. Please try again later."
    pure (record { access_for = a; refresh_token = fresh })

  -- `decoded` is what `jwt.verify` makes of the token: its user and its scope
  unfoldable pub change_found :
      (String → String) → String → String → Option Account → Action Server TokenPair
  unfolding update_user record_login_attempt issue_token_pair
  change_found bcrypt_hash password fresh none = throw (app_error "User not found" 404)
  change_found bcrypt_hash password fresh (some a) = do
    update_user a.id (λ b. record b {
      password_hash = some (bcrypt_hash password);
      must_change_password = false;
    })
    record_login_attempt (some a.id) true "Password rotated on first sign-in complete" "low"
    issue_token_pair a fresh

  unfoldable pub force_change_password_service :
      (String → String) → Option (String × String) → String → String → Action Server TokenPair
  unfolding change_found find_user_by_id
  force_change_password_service bcrypt_hash none password fresh =
      throw (app_error "Invalid or expired password reset token." 401)
  force_change_password_service bcrypt_hash (some (user_id, scope)) password fresh = do
    throw_if (not (str_eq scope "change_password")) (app_error "Invalid token scope" 401)
    found ← find_user_by_id user_id
    change_found bcrypt_hash password fresh found

  -- `hash_otp` is the digest of one-time codes, `totp`, `open_secret` and `digest` are those of the
  -- second factor, `fresh` is the refresh token that is drawn
  module _ (hash_otp : String → String) (totp : String → String → Bool)
      (open_secret digest : String → String) where
    unfoldable pub check_second_step : Account → String → Action Server (Unit {0})
    unfolding is_backup_code verify_backup_code verify_two_factor_login verify_otp
    check_second_step a otp =
        if a.two_factor_enabled
        then if is_backup_code otp
          then verify_backup_code digest a otp
          else verify_two_factor_login totp open_secret a.id otp
        else verify_otp hash_otp (otp_key "login_otp" a.id) otp

    unfoldable pub sign_in : String → Account → Action Server SignIn
    unfolding issue_token_pair
    sign_in fresh a =
        if a.must_change_password
        then pure (must_change_password a.id)
        else do pair ← issue_token_pair a fresh; pure (signed_in pair)

    unfoldable pub second_step : String → String → Account → Action Server SignIn
    unfolding check_second_step recorded sign_in record_login_attempt
    second_step otp fresh a = do
      (λ s. let (r, t) = check_second_step a otp s in recorded a.id r t)
      record_login_attempt (some a.id) true "Successful MFA verification" "low"
      sign_in fresh a

    unfoldable pub use_login : String → String → String → Option Account → Action Server SignIn
    unfolding second_step record_login_attempt
    use_login user_id otp fresh none = do
      record_login_attempt (some user_id) false "Invalid login credentials" "high"
      throw (app_error "Invalid credentials" 401)
    use_login user_id otp fresh (some a) = if a.email_verified then second_step otp fresh a else do
      record_login_attempt (some user_id) false "Invalid login credentials" "high"
      throw (app_error "Invalid credentials" 401)

    unfoldable pub verify_login_otp : String → String → String → Action Server SignIn
    unfolding use_login find_user_by_id
    verify_login_otp user_id otp fresh = do
      found ← find_user_by_id user_id
      use_login user_id otp fresh found

-- which code goes out again
unfoldable pub resend_found :
    (String → String) → String → Mail → Option Account → Action Server String
unfolding send_code
resend_found hash_otp purpose mail none = throw (app_error "Invalid user" 404)
resend_found hash_otp purpose mail (some a) =
    if not a.email_verified && str_eq purpose "email_verify" || str_eq purpose "login_otp"
    then (do send_code hash_otp purpose a.id mail; pure a.id)
    else throw (app_error "Unsupported OTP purpose" 400)

unfoldable pub resend_otp : (String → String) → String → String → Mail → Action Server String
unfolding resend_found find_user_by_id
resend_otp hash_otp purpose user_id mail = do
  found ← find_user_by_id user_id
  resend_found hash_otp purpose mail found

-- the user identifier of the answer, where it has one
unfoldable pub send_reset :
    (String → String) → Mail → Option Account → Action Server (Option String)
unfolding send_code
send_reset hash_otp mail none = pure none
send_reset hash_otp mail (some a) = do
  send_code hash_otp "password_reset" a.id mail
  pure (some a.id)

unfoldable pub forgot_password_user :
    (String → String) → String → Mail → Action Server (Option String)
unfolding send_reset find_user_by_email lowercase
forgot_password_user hash_otp email mail = do
  found ← find_user_by_email (lowercase email)
  send_reset hash_otp mail found
