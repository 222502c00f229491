-- ===== src/Auth/Otp.antt =====
-- services/auth.service.js: issuing and checking one-time codes. Redis answers throughout: a command
-- that throws ends the request with an error.
use url_shortner_system_desi.Common.{
  ℕ, String, Bool, true, false, Option, none, some, [], ◌∷◌, Action, erase, leb, if◌then◌else◌,
  str_eq, pure, gets, modify, throw, throw_if, ◌>>=◌, ◌>>◌, Error, app_error, concat, err,
}
use url_shortner_system_desi.Auth.State.{Server, redis_get, redis_set, redis_count, or_zero}

abbrev pub otp_max_attempts : ℕ
otp_max_attempts = 5

abbrev pub otp_ttl_seconds : ℕ
otp_ttl_seconds = 600

abbrev pub otp_resend_cooldown_seconds : ℕ
otp_resend_cooldown_seconds = 60

abbrev pub otp_resend_max_per_window : ℕ
otp_resend_max_per_window = 3

abbrev pub otp_resend_window_seconds : ℕ
otp_resend_window_seconds = 900

-- the part `purpose:userId` that the four kinds of keys share
abbrev pub otp_key : String → String → String
otp_key purpose user_id = concat (purpose ∷ ":" ∷ user_id ∷ [])

-- `canResendOtp` and the writes of `markOtpResent`
unfoldable pub mark_otp_resent : String → Action Server (Unit {0})
mark_otp_resent key = do
  cooldown ← gets (λ (s : Server). redis_get s.now key s.cooldowns)
  throw_if (elim cooldown [ none ↦ false | some _ ↦ true ])
      (app_error "Please wait before requesting a new code." 429)
  count ← gets (λ (s : Server). or_zero (redis_get s.now key s.resend_counts))
  throw_if (leb otp_resend_max_per_window count)
      (app_error "Too many OTP requests. Please try again later." 429)
  modify (λ s. record s {
    cooldowns = redis_set s.now key "1" otp_resend_cooldown_seconds s.cooldowns;
    resend_counts = redis_count s.now key otp_resend_window_seconds s.resend_counts;
  })

-- `sent` says whether the mail went out, `unsent` is the fallback error of the purpose.
module _ (hash_otp : String → String) where
  unfoldable pub store_otp : String → String → Action Server (Unit {0})
  store_otp key otp = modify (λ s. record s {
    otps = redis_set s.now key (hash_otp otp) otp_ttl_seconds s.otps;
    attempts = erase key s.attempts;
  })

  -- a failed mail takes the code and the cooldown back
  unfoldable pub deliver : String → Bool → Error → Action Server (Unit {0})
  deliver key true unsent = pure tt
  deliver key false unsent = do
    modify (λ s. record s { otps = erase key s.otps; cooldowns = erase key s.cooldowns })
    throw unsent

  unfoldable pub issue_otp : String → String → Bool → Error → Action Server (Unit {0})
  unfolding mark_otp_resent store_otp deliver
  issue_otp key otp sent unsent = do mark_otp_resent key; store_otp key otp; deliver key sent unsent

  -- A stored hash is a digest, which is no empty text.
  unfoldable pub check_otp : String → String → Option String → Action Server (Unit {0})
  check_otp key otp none = throw (app_error "Code not found or expired" 400)
  check_otp key otp (some stored) =
      if str_eq stored (hash_otp otp)
      then modify (λ s. record s { otps = erase key s.otps; attempts = erase key s.attempts })
      else (λ s. (
        err (app_error "Invalid code" 400),
        record s { attempts = redis_count s.now key 900 s.attempts },
      ))

  unfoldable pub verify_otp : String → String → Action Server (Unit {0})
  unfolding check_otp
  verify_otp key otp = do
    attempts ← gets (λ (s : Server). or_zero (redis_get s.now key s.attempts))
    throw_if (leb otp_max_attempts attempts)
        (app_error "Too many invalid attempts. Request a new code." 429)
    stored ← gets (λ (s : Server). redis_get s.now key s.otps)
    check_otp key otp stored
