-- ===== src/Auth/Tests.antt =====
-- The statements about codes and sessions at concrete inputs.
use url_shortner_system_desi.Common.{
  ◌≡◌, refl, String, [], ◌∷◌, none, some, ok, err, true, false, app_error, any, erase,
}
use url_shortner_system_desi.State.{user}
use url_shortner_system_desi.Auth.State.{Server, Account}
use url_shortner_system_desi.Auth.Otp.{verify_otp, otp_key}
use url_shortner_system_desi.Auth.Sessions.{
  refresh_access_token, TokenPair, reset_password_user, is_live_of,
}
use url_shortner_system_desi.Auth.Guessing.{verify_otp-single_use, five_guesses_lock, guess_all}
use url_shortner_system_desi.Auth.Rotation.{second_use_ends_sessions, reset_ends_sessions}

abbrev plain : String → String
plain s = s

abbrev reset_key : String
reset_key = "password_reset:ann"

abbrev ann : Account
ann = record {
  id = "ann";
  name = "Ann";
  email = "ann@x.in";
  password_hash = some "old";
  role = user;
  email_verified = true;
  token_version = 0;
  two_factor_enabled = false;
  two_factor_secret = none;
  two_factor_backup_codes = none;
  must_change_password = false;
}

abbrev server : Server
server = record {
  now = 1000;
  accounts = ann ∷ [];
  tokens =
      record { id = 1; user_id = "ann"; token_hash = "t1"; expires_at = 9000; revoked = false }
      ∷ [];
  next_token_id = 2;
  events = [];
  otps = (reset_key, record { value = "123456"; expires = 601000 }) ∷ [];
  attempts = [];
  cooldowns = [];
  resend_counts = [];
  pending_secrets = [];
  plans = [];
  subscriptions = [];
}

right_code : (verify_otp plain reset_key "123456" server).0 ≡ ok tt
unfolding verify_otp
right_code = refl

verify_otp-single_use_example :
    (verify_otp plain reset_key "123456" (verify_otp plain reset_key "123456" server).1).0
    ≡ err (app_error "Code not found or expired" 400)
verify_otp-single_use_example =
    verify_otp-single_use plain reset_key "123456" "123456" server right_code

five_guesses_lock_example :
    verify_otp plain reset_key "123456"
      (guess_all plain reset_key ("1" ∷ "2" ∷ "3" ∷ "4" ∷ "5" ∷ []) server)
    ≡ (
      err (app_error "Too many invalid attempts. Request a new code." 429),
      guess_all plain reset_key ("1" ∷ "2" ∷ "3" ∷ "4" ∷ "5" ∷ []) server,
    )
five_guesses_lock_example =
    five_guesses_lock plain reset_key ("1" ∷ "2" ∷ "3" ∷ "4" ∷ "5" ∷ []) "123456" "123456" server
      refl refl (refl, (refl, (refl, (refl, (refl, tt))))) refl

abbrev pair : TokenPair
pair = record { access_for = ann; refresh_token = "t2" }

exchanged : (refresh_access_token 7 plain "t1" "t2" server).0 ≡ ok pair
unfolding refresh_access_token
exchanged = refl

second_use_ends_sessions_example :
    ((refresh_access_token 7 plain "t1" "t3" (refresh_access_token 7 plain "t1" "t2" server).1).0
      ≡ err (app_error "Session compromise detected. Please log in again." 401))
    × (any
          (is_live_of "ann")
          (refresh_access_token 7 plain "t1" "t3"
            (refresh_access_token 7 plain "t1" "t2" server).1).1.tokens
        ≡ false)
second_use_ends_sessions_example =
    second_use_ends_sessions 7 plain "t1" "t2" "t3" server pair exchanged

reset_done : (reset_password_user plain plain "ann" "123456" "new" server).0 ≡ ok tt
unfolding reset_password_user
reset_done = refl

reset_ends_sessions_example :
    (any (is_live_of "ann") (reset_password_user plain plain "ann" "123456" "new" server).1.tokens
      ≡ false)
    × ((reset_password_user plain plain "ann" "123456" "new" server).1.otps
        ≡ erase (otp_key "password_reset" "ann") server.otps)
reset_ends_sessions_example = reset_ends_sessions plain plain "ann" "123456" "new" server reset_done
