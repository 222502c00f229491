-- ===== src/Auth/Accounts.antt =====
-- services/auth.service.js: registration, logins and forced changes of passwords. The one-time code
-- that is drawn and whether its mail goes out are a `Mail`. PostgreSQL and Redis answer; the alert
-- of a new device is a mail that changes no state, and so is left out.
use url_shortner_system_desi.Common.{
  ℕ, String, Bool, true, false, not, Option, none, some, [], ◌∷◌, ◌++◌, Action, if◌then◌else◌,
  str_eq, any, find, pure, gets, modify, throw, throw_if, ◌>>=◌, ◌>>◌, Error, app_error,
  app_error_with, Result, ok, err, lowercase, starts_with,
}
use url_shortner_system_desi.State.{Plan, Subscription, user, active, monthly}
use url_shortner_system_desi.Auth.State.{Server, Account}
use url_shortner_system_desi.Auth.Otp.{otp_key, issue_otp}
use url_shortner_system_desi.Auth.Sessions.{TokenPair, is_account, find_user_by_email, update_user}

pub record Mail : Type 0 where
  pub otp : String
  pub sent : Bool

abbrev pub translated : String → Error → Error
translated fallback e =
    if e.is_operational
    then e
    else if elim e.code [ none ↦ false | some c ↦ starts_with "23" c ]
    then app_error "Database error occurred" 503
    else app_error fallback 503

abbrev pub translate {ℓ} : {A : Type ℓ} → String → Result A → Result A
translate fallback (ok a) = ok a
translate fallback (err e) = err (translated fallback e)

unfoldable pub with_auth_error_handling {ℓ} :
    {A : Type ℓ} → Action Server A → String → Action Server A
unfolding starts_with
with_auth_error_handling m fallback s = let (r, t) = m s in (translate fallback r, t)

-- an event of a user who has no row breaks a foreign key, and the error is swallowed
unfoldable pub record_login_attempt :
    Option String → Bool → String → String → Action Server (Unit {0})
record_login_attempt none success reason risk = modify (λ s. record s {
  events =
      s.events
      ++ record { user_id = none; success = success; reason = reason; risk_level = risk } ∷ [];
})
record_login_attempt (some id) success reason risk = modify (λ s.
    if any (is_account id) s.accounts
    then record s {
      events =
          s.events
          ++ record { user_id = some id; success = success; reason = reason; risk_level = risk }
            ∷ [];
    }
    else s)

abbrev pub new_account : String → String → String → String → Account
new_account id name email hash = record {
  id = id;
  name = name;
  email = email;
  password_hash = some hash;
  role = user;
  email_verified = false;
  token_version = 0;
  two_factor_enabled = false;
  two_factor_secret = none;
  two_factor_backup_codes = none;
  must_change_password = false;
}

-- a plain `Error`
abbrev pub no_free_plan : Error
no_free_plan = record (app_error "Free plan not found in database." 500) {
  status_code = none;
  is_operational = false;
}

abbrev pub first_subscription : ℕ → String → String → Plan → Subscription
first_subscription now id user_id free = record {
  id = id;
  user_id = user_id;
  plan_id = free.id;
  billing_cycle = monthly;
  status = active;
  started_at = now;
  current_period_end = none;
  cancel_at_period_end = false;
  canceled_at = none;
  external_subscription_id = none;
}

-- `sub_id` is the identifier that the database makes for the subscription
unfoldable pub insert_user : Account → String → Option Plan → Action Server (Unit {0})
insert_user account sub_id none = throw no_free_plan
insert_user account sub_id (some free) = modify (λ s. record s {
  accounts = s.accounts ++ account ∷ [];
  subscriptions = s.subscriptions ++ first_subscription s.now sub_id account.id free ∷ [];
})

unfoldable pub create_user : Account → String → Action Server (Unit {0})
unfolding insert_user
create_user account sub_id = do
  free ← gets (λ (s : Server). find (λ (p : Plan). str_eq p.key "free") s.plans)
  insert_user account sub_id free

abbrev pub unsent : String → Error
unsent purpose =
    if str_eq purpose "login_otp"
    then app_error "We couldn't send the sign-in code right now. Please try again later." 503
    else app_error "Unable to send verification email. Please try again later." 503

abbrev pub unverified : String → Error
unverified id =
    app_error_with "Email not verified. A new verification code has been sent." 403
      (some (("userId", id) ∷ [])) (some "EMAIL_NOT_VERIFIED")

-- what a password login answers
pub data LoginStep : Type 0 where
  two_factor_required otp_required : String → LoginStep

-- what the second step answers; the token for a change of password is kept as its user
pub data SignIn : Type 0 where
  signed_in : TokenPair → SignIn
  must_change_password : String → SignIn

module _ (hash_otp : String → String) where
  unfoldable pub send_code : String → String → Mail → Action Server (Unit {0})
  unfolding issue_otp
  send_code purpose user_id mail =
      issue_otp hash_otp (otp_key purpose user_id) mail.otp mail.sent (unsent purpose)

  module _ (bcrypt_hash : String → String) where
    -- an address whose owner has not confirmed it is registered anew
    unfoldable pub register_existing : String → String → Mail → Account → Action Server String
    unfolding send_code update_user with_auth_error_handling
    register_existing name password mail account = do
      throw_if account.email_verified (app_error "Email already registered" 409)
      with_auth_error_handling
          (update_user account.id
            (λ a. record a { name = name; password_hash = some (bcrypt_hash password) }))
          "We couldn't update your account right now. Please try again later."
      send_code "email_verify" account.id mail
      pure account.id

    -- `id` and `sub_id` are the identifiers that the database makes
    unfoldable pub register_new :
        String → String → String → String → String → Mail → Action Server String
    unfolding send_code create_user with_auth_error_handling
    register_new id sub_id name email password mail = do
      with_auth_error_handling
          (create_user (new_account id name email (bcrypt_hash password)) sub_id)
          "We couldn't create your account right now. Please try again later."
      send_code "email_verify" id mail
      pure id

    unfoldable pub register_found :
        String → String → String → String → String → Mail → Option Account → Action Server String
    unfolding register_existing register_new
    register_found id sub_id name email password mail none =
        register_new id sub_id name email password mail
    register_found id sub_id name email password mail (some account) =
        register_existing name password mail account

    unfoldable pub register_user :
        String → String → String → String → String → Mail → Action Server String
    unfolding register_found find_user_by_email lowercase
    register_user id sub_id name email password mail = do
      existing ← find_user_by_email (lowercase email)
      register_found id sub_id name (lowercase email) password mail existing

  -- `compare` is `bcrypt.compare`
  module _ (compare : String → String → Bool) where
    abbrev pub password_valid : String → Account → Bool
    password_valid password a = elim a.password_hash [
      | none ↦ false
      | some hash ↦ compare password hash
    ]

    unfoldable pub reject_unverified : Mail → Account → Action Server LoginStep
    unfolding send_code record_login_attempt
    reject_unverified mail a = do
      record_login_attempt (some a.id) false "Unverified email login blocked" "low"
      send_code "email_verify" a.id mail
      throw (unverified a.id)

    unfoldable pub first_step : Mail → Account → Action Server LoginStep
    unfolding send_code record_login_attempt
    first_step mail a =
        if a.two_factor_enabled
        then (do
          record_login_attempt (some a.id) true "Password verified, 2FA required" "low"
          pure (two_factor_required a.id))
        else (do
          send_code "login_otp" a.id mail
          record_login_attempt (some a.id) true "Password verified, OTP required" "low"
          pure (otp_required a.id))

    unfoldable pub login_found : String → Mail → Option Account → Action Server LoginStep
    unfolding reject_unverified first_step record_login_attempt
    login_found password mail none = do
      record_login_attempt none false "Email not registered" "high"
      throw (app_error "Invalid credentials" 401)
    login_found password mail (some a) =
        if not (password_valid password a)
        then (do
          record_login_attempt (some a.id) false "Invalid password entered" "medium"
          throw (app_error "Invalid credentials" 401))
        else if not a.email_verified
        then reject_unverified mail a
        else first_step mail a

    unfoldable pub login_user : String → String → Mail → Action Server LoginStep
    unfolding login_found find_user_by_email lowercase
    login_user email password mail = do
      found ← find_user_by_email (lowercase email)
      login_found password mail found
