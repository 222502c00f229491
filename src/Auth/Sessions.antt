-- ===== src/Auth/Sessions.antt =====
-- services/auth.service.js: refresh tokens, password resets and logins, with the statements of
-- repositories/user.repository.js that they run.
use url_shortner_system_desi.Common.{
  ℕ, ◌+◌, ◌*◌, String, Bool, true, false, not, ◌&&◌, Option, none, some, [], ◌∷◌, ◌++◌, Action, ltb,
  if◌then◌else◌, str_eq, ◌==◌, find, update_where, pure, gets, modify, throw, throw_if, ◌>>=◌, ◌>>◌,
  Error, app_error, any,
}
use url_shortner_system_desi.State.{Role, user, is_admin}
use url_shortner_system_desi.Auth.State.{Server, Account, RefreshToken}
use url_shortner_system_desi.Auth.Otp.{otp_key, verify_otp}

abbrev pub is_account : String → Account → Bool
is_account id a = str_eq a.id id

unfoldable pub find_user_by_id : String → Action Server (Option Account)
find_user_by_id id = gets (λ (s : Server). find (is_account id) s.accounts)

unfoldable pub find_user_by_email : String → Action Server (Option Account)
find_user_by_email email =
    gets (λ (s : Server). find (λ (a : Account). str_eq a.email email) s.accounts)

-- `prisma.user.update` throws where no row has the id.
abbrev pub no_record : Error
no_record = record (app_error "No record was found for an update." 500) {
  status_code = none;
  is_operational = false;
  code = some "P2025";
}

unfoldable pub update_user : String → (Account → Account) → Action Server (Unit {0})
update_user id change s =
    (throw_if (not (any (is_account id) s.accounts)) no_record
        >> modify (λ t. record t { accounts = update_where (is_account id) change t.accounts }))
      s

unfoldable pub mark_email_verified : String → Action Server (Unit {0})
mark_email_verified id = update_user id (λ a. record a { email_verified = true })

unfoldable pub update_user_password : String → String → Action Server (Unit {0})
update_user_password id hash = update_user id (λ a. record a { password_hash = some hash })

unfoldable pub increment_token_version : String → Action Server (Unit {0})
increment_token_version id = update_user id (λ a. record a { token_version = a.token_version + 1 })

abbrev pub revoked_form : RefreshToken → RefreshToken
revoked_form t = record t { revoked = true }

abbrev pub has_hash : String → RefreshToken → Bool
has_hash hash t = str_eq t.token_hash hash

abbrev pub is_live_of : String → RefreshToken → Bool
is_live_of user_id t = str_eq t.user_id user_id && not t.revoked

-- `update`, by the primary key
unfoldable pub revoke_refresh_token : ℕ → Action Server (Unit {0})
revoke_refresh_token id = modify (λ s. record s {
  tokens = update_where (λ (t : RefreshToken). t.id == id) revoked_form s.tokens;
})

unfoldable pub revoke_refresh_tokens_by_user_id : String → Action Server (Unit {0})
revoke_refresh_tokens_by_user_id user_id =
    modify (λ s. record s { tokens = update_where (is_live_of user_id) revoked_form s.tokens })

unfoldable pub revoke_refresh_token_by_hash : String → Action Server (Unit {0})
revoke_refresh_token_by_hash hash = modify (λ s. record s {
  tokens = update_where (λ t. has_hash hash t && not t.revoked) revoked_form s.tokens;
})

unfoldable pub find_refresh_token_by_hash : String → Action Server (Option RefreshToken)
find_refresh_token_by_hash hash = gets (λ (s : Server). find (has_hash hash) s.tokens)

abbrev pub role_or_user : Option Account → Role
role_or_user none = user
role_or_user (some a) = a.role

-- 8 hours for administrators, the configured days for everybody else
abbrev pub refresh_ttl : ℕ → Role → ℕ
refresh_ttl days role = if is_admin role then 8 * 60 * 60 * 1000 else days * 24 * 60 * 60 * 1000

pub record TokenPair : Type 0 where
  pub access_for : Account
  pub refresh_token : String

-- `refresh_days` is `config.jwt.refreshExpiresDays`; the access token is kept as the account that it
-- is signed for.
module _ (refresh_days : ℕ) (hash_token : String → String) where
  unfoldable pub create_refresh_token_record : String → String → Action Server (Unit {0})
  unfolding find_user_by_id
  create_refresh_token_record user_id token = do
    found ← find_user_by_id user_id
    modify (λ s. record s {
      tokens =
          s.tokens
          ++ record {
            id = s.next_token_id;
            user_id = user_id;
            token_hash = hash_token token;
            expires_at = s.now + refresh_ttl refresh_days (role_or_user found);
            revoked = false;
          }
            ∷ [];
      next_token_id = s.next_token_id + 1;
    })

  -- `fresh` is the value that `crypto.randomBytes` draws
  unfoldable pub rotate : RefreshToken → String → Option Account → Action Server TokenPair
  unfolding revoke_refresh_token create_refresh_token_record
  rotate stored fresh none = throw (app_error "User not found" 401)
  rotate stored fresh (some account) = do
    revoke_refresh_token stored.id
    create_refresh_token_record stored.user_id fresh
    pure (record { access_for = account; refresh_token = fresh })

  -- a token that was revoked before ends every session of its user
  unfoldable pub compromised : String → Action Server TokenPair
  unfolding revoke_refresh_tokens_by_user_id increment_token_version update_user
  compromised user_id = do
    revoke_refresh_tokens_by_user_id user_id
    increment_token_version user_id
    throw (app_error "Session compromise detected. Please log in again." 401)

  unfoldable pub use_refresh_token : String → Option RefreshToken → Action Server TokenPair
  unfolding rotate compromised find_user_by_id
  use_refresh_token fresh none = throw (app_error "Refresh token invalid or revoked" 401)
  use_refresh_token fresh (some stored) = if stored.revoked then compromised stored.user_id else do
    now ← gets (λ (s : Server). s.now)
    throw_if (ltb stored.expires_at now) (app_error "Refresh token expired" 401)
    account ← find_user_by_id stored.user_id
    rotate stored fresh account

  unfoldable pub refresh_access_token : String → String → Action Server TokenPair
  unfolding use_refresh_token find_refresh_token_by_hash
  refresh_access_token token fresh = do
    stored ← find_refresh_token_by_hash (hash_token token)
    use_refresh_token fresh stored

  unfoldable pub logout_user : String → Action Server (Unit {0})
  unfolding revoke_refresh_token_by_hash
  logout_user token = revoke_refresh_token_by_hash (hash_token token)

unfoldable pub verify_email_otp : (String → String) → String → String → Action Server (Unit {0})
unfolding verify_otp mark_email_verified update_user
verify_email_otp hash_otp user_id otp = do
  verify_otp hash_otp (otp_key "email_verify" user_id) otp
  mark_email_verified user_id

-- `bcrypt_hash` is the hash of this request, its salt drawn
unfoldable pub reset_password_user :
    (String → String) → (String → String) → String → String → String → Action Server (Unit {0})
unfolding verify_otp update_user_password increment_token_version update_user
    revoke_refresh_tokens_by_user_id
reset_password_user hash_otp bcrypt_hash user_id otp password = do
  verify_otp hash_otp (otp_key "password_reset" user_id) otp
  update_user_password user_id (bcrypt_hash password)
  increment_token_version user_id
  revoke_refresh_tokens_by_user_id user_id
