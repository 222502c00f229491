-- ===== src/Auth/LoginTests.antt =====
-- Registration, the second factor and logins at concrete inputs.
use url_shortner_system_desi.Common.{
  String, Bool, true, false, none, some, [], ◌∷◌, ◌≡◌, refl, str_eq, find, ok, lowercase,
}
use url_shortner_system_desi.State.{user}
use url_shortner_system_desi.Auth.{
  first_step, login_found, is_backup_code, Server, Account, Mail, otp_required, signed_in,
  login_user, forgot_password_user,
}
use url_shortner_system_desi.Auth.Logins.{login_user-Admits, Admits}
use url_shortner_system_desi.Auth.Guesses.{attempt, guess_codes, code_alone_signs_in}

abbrev itself : String → String
itself s = s

-- a code is right if it is the secret
abbrev same_text : String → String → Bool
same_text secret code = str_eq secret code

abbrev member : Account
member = record {
  id = "ann";
  name = "Ann";
  email = "ann@x.in";
  password_hash = some "pass";
  role = user;
  email_verified = true;
  token_version = 0;
  two_factor_enabled = false;
  two_factor_secret = none;
  two_factor_backup_codes = none;
  must_change_password = false;
}

abbrev protected : Account
protected = record member { two_factor_enabled = true; two_factor_secret = some "123456" }

abbrev quiet : Server
quiet = record {
  now = 1000;
  accounts = member ∷ [];
  tokens = [];
  next_token_id = 1;
  events = [];
  otps = [];
  attempts = [];
  cooldowns = [];
  resend_counts = [];
  pending_secrets = ("ann", record { value = "123456"; expires = 9000 }) ∷ [];
  plans = [];
  subscriptions = [];
}

abbrev guarded : Server
guarded = record quiet { accounts = protected ∷ [] }

abbrev sent_mail : Mail
sent_mail = record { otp = "111111"; sent = true }

first_login :
    (login_user itself same_text "ANN@x.in" "pass" sent_mail quiet).0 ≡ ok (otp_required "ann")
unfolding login_user login_found first_step
first_login = refl

login_user-Admits_example :
    (a : Account) × (find (λ (b : Account). str_eq b.email (lowercase "ANN@x.in")) quiet.accounts
      ≡ some a)
    × Admits itself same_text "pass" a
login_user-Admits_example =
    login_user-Admits itself same_text "ANN@x.in" "pass" sent_mail quiet (otp_required "ann")
      first_login

code_alone_signs_in_example :
    (attempt 30 itself itself same_text itself itself "ann" "123456" protected "123456" "fresh" (
      guess_codes 30 itself itself same_text itself itself "ann" "123456" protected
        ("000000" ∷ "000001" ∷ [])
        "fresh"
        guarded)).0
    ≡ ok (signed_in (record { access_for = protected; refresh_token = "fresh" }))
unfolding is_backup_code
code_alone_signs_in_example =
    code_alone_signs_in 30 itself itself same_text itself itself "ann" "123456" protected
      ("000000" ∷ "000001" ∷ []) "123456" "fresh" guarded (refl, refl, refl, refl) refl
      ((refl, refl), ((refl, refl), tt)) refl refl

-- the answer tells whether an address has an account
reset_tells : (forgot_password_user itself "ann@x.in" sent_mail quiet).0 ≡ ok (some "ann")
unfolding forgot_password_user
reset_tells = refl

reset_tells_not : (forgot_password_user itself "bob@x.in" sent_mail quiet).0 ≡ ok none
unfolding forgot_password_user
reset_tells_not = refl
