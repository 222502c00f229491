-- ===== src/Auth/Guesses.antt =====
-- Guesses of the second factor, which nothing in the account counts.
use url_shortner_system_desi.Common.{
  ℕ, String, Bool, true, false, some, List, [], ◌∷◌, All, eq_iff, any, find, find_sound, ◌≡◌, refl,
  ◌∙◌, ◌>>◌, ap, inl, inr, Bool-cases, Result, ok, err, Error, app_error,
}
use url_shortner_system_desi.Auth.State.{Server, Account}
use url_shortner_system_desi.Auth.Sessions.{is_account, find_user_by_id}
use url_shortner_system_desi.Auth.Accounts.{SignIn, signed_in, record_login_attempt}
use url_shortner_system_desi.Auth.TwoFactor.{check_totp, use_second_factor, verify_two_factor_login}
use url_shortner_system_desi.Auth.SecondStep.{
  is_backup_code, recorded, check_second_step, second_step, use_login, verify_login_otp,
}
use url_shortner_system_desi.Auth.{
  create_refresh_token_record, with_auth_error_handling, issue_token_pair, sign_in,
}

record_login_attempt-accounts :
    (id : String) (success : Bool) (reason risk : String) (s : Server)
    → (record_login_attempt (some id) success reason risk s).1.accounts ≡ s.accounts
unfolding record_login_attempt
record_login_attempt-accounts id success reason risk s =
    elim (Bool-cases (any (is_account id) s.accounts)) [
      | inl row ↦ rw row refl
      | inr nobody ↦ rw nobody refl
    ]

module _ (refresh_days : ℕ) (hash_token hash_otp : String → String) (totp : String → String → Bool)
    (open_secret digest : String → String) (user_id sealed : String) (a : Account) where
  -- The row of a confirmed account with a second factor.
  abbrev pub IsProtected : Server → Type 0
  IsProtected s =
      (find (is_account user_id) s.accounts ≡ some a)
      × (a.email_verified ≡ true)
      × (a.two_factor_enabled ≡ true)
      × (a.two_factor_secret ≡ some sealed)

  -- Six characters that are not the code of the moment.
  abbrev pub IsWrong : String → Type 0
  IsWrong guess = (is_backup_code guess ≡ false) × (totp (open_secret sealed) guess ≡ false)

  abbrev pub attempt : String → String → Server → Result SignIn × Server
  attempt otp fresh s =
      verify_login_otp refresh_days hash_token hash_otp totp open_secret digest user_id otp fresh s

  same_id : (s : Server) → find (is_account user_id) s.accounts ≡ some a → a.id ≡ user_id
  same_id s row = (eq_iff a.id user_id).0 (find_sound (is_account user_id) s.accounts a row)

  still : (s t : Server) → t.accounts ≡ s.accounts → IsProtected s → IsProtected t
  still s t kept (row, confirmed, on, secret) =
      (ap (find (is_account user_id)) kept ∙ row, confirmed, on, secret)

  abbrev wrong_code : Error
  wrong_code = app_error "Invalid authenticator code" 400

  check_second_step_lem :
      (guess : String) (s : Server)
      → IsProtected s
      → IsWrong guess
      → check_second_step refresh_days hash_token hash_otp totp open_secret digest a guess s
        ≡ (err wrong_code, s)
  unfolding check_second_step verify_two_factor_login find_user_by_id use_second_factor check_totp
  check_second_step_lem guess s (row, confirmed, on, secret) (six, wrong) =
      rw (on, six, same_id s row, row, on, secret, wrong) refl

  abbrev after_check : String → Server → Result (Unit {0}) × Server → Result SignIn × Server
  after_check fresh s p =
      ((λ (_ : Server). recorded a.id p.0 p.1)
          >> (record_login_attempt (some a.id) true "Successful MFA verification" "low"
              >> sign_in refresh_days hash_token hash_otp totp open_secret digest fresh a))
        s

  attempt_lem :
      (otp fresh : String) (s : Server)
      → IsProtected s
      → attempt otp fresh s
        ≡ second_step refresh_days hash_token hash_otp totp open_secret digest otp fresh a s
  unfolding verify_login_otp find_user_by_id use_login
  attempt_lem otp fresh s (row, confirmed, on, secret) =
      ap
        (λ o.
          use_login refresh_days hash_token hash_otp totp open_secret digest user_id otp fresh o s)
        row
      ∙ simp confirmed refl

  attempt-checks :
      (otp fresh : String) (s : Server) (p : Result (Unit {0}) × Server)
      → IsProtected s
      → check_second_step refresh_days hash_token hash_otp totp open_secret digest a otp s ≡ p
      → attempt otp fresh s ≡ after_check fresh s p
  unfolding second_step
  attempt-checks otp fresh s p safe checked =
      attempt_lem otp fresh s safe ∙ ap (after_check fresh s) checked

  attempt-accounts :
      (guess fresh : String) (s : Server)
      → IsProtected s
      → IsWrong guess
      → (attempt guess fresh s).1.accounts ≡ s.accounts
  unfolding recorded
  attempt-accounts guess fresh s safe wrong =
      ap (λ r. r.1.accounts)
        (attempt-checks guess fresh s (err wrong_code, s) safe
          (check_second_step_lem guess s safe wrong))
      ∙ record_login_attempt-accounts a.id false "Invalid authenticator code" "medium" s

  -- guesses one after the other
  unfoldable pub guess_codes : List String → String → Server → Server
  guess_codes [] fresh s = s
  guess_codes (g ∷ gs) fresh s = guess_codes gs fresh (attempt g fresh s).1

  guess_codes-accounts :
      (gs : List String) (fresh : String) (s : Server)
      → IsProtected s
      → All IsWrong gs
      → (guess_codes gs fresh s).accounts ≡ s.accounts
  unfolding guess_codes
  guess_codes-accounts [] fresh s safe wrong = refl
  guess_codes-accounts (g ∷ gs) fresh s safe (bad, wrong) =
      let next = (attempt g fresh s).1 in
      let kept = attempt-accounts g fresh s safe bad in
      guess_codes-accounts gs fresh (attempt g fresh s).1 (still s next kept safe) wrong ∙ kept

  right_step :
      (otp : String) (s : Server)
      → IsProtected s
      → is_backup_code otp ≡ false
      → totp (open_secret sealed) otp ≡ true
      → check_second_step refresh_days hash_token hash_otp totp open_secret digest a otp s
        ≡ (ok tt, s)
  unfolding check_second_step verify_two_factor_login find_user_by_id use_second_factor check_totp
  right_step otp s (row, confirmed, on, secret) six right =
      rw (on, six, same_id s row, row, on, secret, right) refl

  sign_in_lem :
      (fresh : String) (t : Server)
      → a.must_change_password ≡ false
      → (sign_in refresh_days hash_token hash_otp totp open_secret digest fresh a t).0
        ≡ ok (signed_in (record { access_for = a; refresh_token = fresh }))
  unfolding sign_in issue_token_pair with_auth_error_handling create_refresh_token_record
      find_user_by_id
  sign_in_lem fresh t stays = simp stays refl

  right_login :
      (otp fresh : String) (s : Server)
      → IsProtected s
      → a.must_change_password ≡ false
      → is_backup_code otp ≡ false
      → totp (open_secret sealed) otp ≡ true
      → (attempt otp fresh s).0 ≡ ok (signed_in (record { access_for = a; refresh_token = fresh }))
  unfolding recorded sign_in issue_token_pair with_auth_error_handling create_refresh_token_record
      record_login_attempt
  right_login otp fresh s safe stays six right =
      ap (λ r. r.0) (attempt-checks otp fresh s (ok tt, s) safe (right_step otp s safe six right))
      ∙ sign_in_lem fresh _ stays

  -- The second step of a login asks for no trace of the first, and counts no wrong codes of the
  -- second factor: however many of six characters were wrong, and whether or not a password was
  -- given, the identifier of a confirmed account and a right code are answered with tokens, unless
  -- the password has to be changed.
  pub code_alone_signs_in :
      (guesses : List String) (otp fresh : String) (s : Server)
      → IsProtected s
      → a.must_change_password ≡ false
      → All IsWrong guesses
      → is_backup_code otp ≡ false
      → totp (open_secret sealed) otp ≡ true
      → (attempt otp fresh (guess_codes guesses fresh s)).0
        ≡ ok (signed_in (record { access_for = a; refresh_token = fresh }))
  code_alone_signs_in guesses otp fresh s safe stays wrong six right =
      let next = guess_codes guesses fresh s in
      let kept = guess_codes-accounts guesses fresh s safe wrong in
      right_login otp fresh (guess_codes guesses fresh s) (still s next kept safe) stays six right
