-- ===== src/Auth/Logins.antt =====
-- Logins: what the first step asks for, and what the second one does not.
use url_shortner_system_desi.Common.{
  String, Bool, true, false, Option, none, some, Action, str_eq, find, arith, ◌≡◌, refl, sym, ◌∙◌,
  ◌>>◌, throw, inl, inr, Bool-cases, Result, ok, err, Error, app_error, lowercase,
}
use url_shortner_system_desi.Auth.State.{Server, Account}
use url_shortner_system_desi.Auth.Sessions.{find_user_by_email}
use url_shortner_system_desi.Auth.Accounts.{
  Mail, LoginStep, password_valid, login_found, login_user, reject_unverified, record_login_attempt,
  send_code, unverified,
}

module _ {A : Type 0} (e : Error) (a : A) where
  never_returns :
      (r : Result (Unit {0})) (t s : Server)
      → (((λ (_ : Server). (r, t)) >> throw e) s).0 ≡ ok a
      → ⊥
  never_returns (ok x) t s h = ground arith
  never_returns (err f) t s h = ground arith

  never_returns_after :
      (m : Action Server (Unit {0})) (s : Server) → ((m >> throw e) s).0 ≡ ok a → ⊥
  never_returns_after m s h = never_returns (m s).0 (m s).1 s h

module _ (hash_otp : String → String) (compare : String → String → Bool) where
  abbrev pub wrong_credentials : Error
  wrong_credentials = app_error "Invalid credentials" 401

  -- An account that a first step may go on with.
  abbrev pub Admits : String → Account → Type 0
  Admits password a =
      (password_valid hash_otp compare password a ≡ true) × (a.email_verified ≡ true)

  reject_unverified_lem :
      (mail : Mail) (a : Account) (s : Server) (step : LoginStep)
      → (reject_unverified hash_otp compare mail a s).0 ≡ ok step
      → ⊥
  unfolding reject_unverified record_login_attempt
  reject_unverified_lem mail a s step h =
      never_returns_after (unverified a.id) step (send_code hash_otp "email_verify" a.id mail)
        (record_login_attempt (some a.id) false "Unverified email login blocked" "low" s).1 h

  login_found-Admits :
      (password : String) (mail : Mail) (o : Option Account) (s : Server) (step : LoginStep)
      → (login_found hash_otp compare password mail o s).0 ≡ ok step
      → (a : Account) × (o ≡ some a) × Admits password a
  unfolding login_found
  login_found-Admits password mail none s step h = absurd (
      never_returns_after wrong_credentials step
        (record_login_attempt none false "Email not registered" "high") s h)
  login_found-Admits password mail (some a) s step h =
      elim (Bool-cases (password_valid hash_otp compare password a)) [
        | inr bad ↦ absurd (
            never_returns_after wrong_credentials step
              (record_login_attempt (some a.id) false "Invalid password entered" "medium") s
              (sym (rw bad refl) ∙ h))
        | inl right ↦ elim (Bool-cases a.email_verified) [
          | inr fresh ↦
              absurd (reject_unverified_lem mail a s step (sym (rw (right, fresh) refl) ∙ h))
          | inl confirmed ↦ (a, refl, (right, confirmed))
        ]
      ]

  -- A password login that returns has found an account with the address in lower case, whose stored
  -- hash the password matches and whose address is confirmed.
  pub login_user-Admits :
      (email password : String) (mail : Mail) (s : Server) (step : LoginStep)
      → (login_user hash_otp compare email password mail s).0 ≡ ok step
      → (a : Account) × (find (λ (b : Account). str_eq b.email (lowercase email)) s.accounts
          ≡ some a)
        × Admits password a
  unfolding login_user find_user_by_email
  login_user-Admits email password mail s step h = login_found-Admits password mail _ s step h
