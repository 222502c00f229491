-- ===== src/Auth/Rotation.antt =====
-- Refresh tokens: each is used once, and a second use ends every session of its user.
use url_shortner_system_desi.Common.{
  erase, find_sound, ℕ, ◌+◌, String, Bool, true, false, none, some, List, [], ◌∷◌, ◌++◌, Option, ok,
  err, arith, ◌≡◌, refl, any, find, update_where, Error, eq_iff, app_error, ◌==◌,
}
use url_shortner_system_desi.Auth.State.{Server, RefreshToken, Account}
use url_shortner_system_desi.Auth.Sessions.{
  refresh_access_token, TokenPair, use_refresh_token, has_hash, is_live_of, revoked_form,
  is_account, reset_password_user, revoke_refresh_tokens_by_user_id,
}
use url_shortner_system_desi.Auth.{
  otp_key, update_user_password, verify_otp, increment_token_version, update_user,
  find_refresh_token_by_hash, revoke_refresh_token, create_refresh_token_record, find_user_by_id,
  compromised, rotate, refresh_ttl,
}

module _ (q : RefreshToken → Bool) where
  find-revoke :
      (hash : String) (ts : List RefreshToken) (t : RefreshToken) (vs : List RefreshToken)
      → find (has_hash hash) ts ≡ some t
      → q t ≡ true
      → find (has_hash hash) (update_where q revoked_form ts ++ vs) ≡ some (revoked_form t)
  find-revoke hash [] t vs h k = ground arith
  find-revoke hash (x ∷ ts) t vs h k = ground (arith, find-revoke hash ts t vs)

pub any_live-revoke :
    (id : String) (ts : List RefreshToken)
    → any (is_live_of id) (update_where (is_live_of id) revoked_form ts) ≡ false
any_live-revoke id [] = refl
any_live-revoke id (t ∷ ts) = ground (arith, any_live-revoke id ts)

pub any_account-find :
    (id : String) (xs : List Account) (a : Account)
    → find (is_account id) xs ≡ some a
    → any (is_account id) xs ≡ true
any_account-find id [] a h = ground arith
any_account-find id (x ∷ xs) a h = ground (arith, any_account-find id xs a)

abbrev compromise : Error
compromise = app_error "Session compromise detected. Please log in again." 401

module _ (days : ℕ) (hash_token : String → String) where
  abbrev rotated : RefreshToken → Account → String → Server → Server
  rotated t a fresh s = record s {
    tokens =
        update_where (λ (x : RefreshToken). x.id == t.id) revoked_form s.tokens
        ++ record {
          id = s.next_token_id;
          user_id = t.user_id;
          token_hash = hash_token fresh;
          expires_at = s.now + refresh_ttl days a.role;
          revoked = false;
        }
          ∷ [];
    next_token_id = s.next_token_id + 1;
  }

  rotate-inv :
      (t : RefreshToken) (fresh : String) (o : Option Account) (s : Server) (p : TokenPair)
      → find (is_account t.user_id) s.accounts ≡ o
      → (rotate days hash_token t fresh o s).0 ≡ ok p
      → (find (is_account t.user_id) s.accounts ≡ some p.access_for)
        × (rotate days hash_token t fresh o s).1 ≡ rotated t p.access_for fresh s
  unfolding rotate create_refresh_token_record revoke_refresh_token find_user_by_id
  rotate-inv t fresh none s p found done = ground arith
  rotate-inv t fresh (some a) s p found done = ground arith

  use_refresh_token-inv :
      (t : RefreshToken) (fresh : String) (s : Server) (p : TokenPair)
      → (use_refresh_token days hash_token fresh (some t) s).0 ≡ ok p
      → (t.revoked ≡ false)
        × ((find (is_account t.user_id) s.accounts ≡ some p.access_for)
            × ((use_refresh_token days hash_token fresh (some t) s).1
                ≡ rotated t p.access_for fresh s))
  unfolding use_refresh_token compromised find_user_by_id
  use_refresh_token-inv t fresh s p done =
      let inv = rotate-inv t fresh (find (is_account t.user_id) s.accounts) s p refl in
      ground (arith, inv)

  abbrev ended : String → Server → Server
  ended user_id s = record s {
    tokens = update_where (is_live_of user_id) revoked_form s.tokens;
    accounts =
        update_where (is_account user_id) (λ a. record a { token_version = a.token_version + 1 })
          s.accounts;
  }

  reuse-ends :
      (token later : String) (t : RefreshToken) (s : Server)
      → find (has_hash (hash_token token)) s.tokens ≡ some t
      → t.revoked ≡ true
      → any (is_account t.user_id) s.accounts ≡ true
      → refresh_access_token days hash_token token later s ≡ (err compromise, ended t.user_id s)
  unfolding refresh_access_token use_refresh_token compromised update_user increment_token_version
      find_refresh_token_by_hash revoke_refresh_tokens_by_user_id
  reuse-ends token later t s held used known = ground arith

  refresh_access_token-inv :
      (token fresh : String) (s : Server) (p : TokenPair) (o : Option RefreshToken)
      → find (has_hash (hash_token token)) s.tokens ≡ o
      → (refresh_access_token days hash_token token fresh s).0 ≡ ok p
      → (t : RefreshToken) × ((o ≡ some t)
          × ((t.revoked ≡ false)
              × ((find (is_account t.user_id) s.accounts ≡ some p.access_for)
                  × ((refresh_access_token days hash_token token fresh s).1
                      ≡ rotated t p.access_for fresh s))))
  unfolding refresh_access_token use_refresh_token find_refresh_token_by_hash
  refresh_access_token-inv token fresh s p none held done = ground arith
  refresh_access_token-inv token fresh s p (some t) held done =
      let inv = use_refresh_token-inv t fresh s p in (t, ground (arith, inv))

  -- A refresh token that was exchanged for a new pair is refused with status 401 when it comes
  -- again, and then the account of the pair has no refresh token that is not revoked.
  pub second_use_ends_sessions :
      (token fresh later : String) (s : Server) (p : TokenPair)
      → (refresh_access_token days hash_token token fresh s).0 ≡ ok p
      → ((refresh_access_token days hash_token token later
            (refresh_access_token days hash_token token fresh s).1).0
          ≡ err (app_error "Session compromise detected. Please log in again." 401))
        × (any
              (is_live_of p.access_for.id)
              (refresh_access_token days hash_token token later
                (refresh_access_token days hash_token token fresh s).1).1.tokens
            ≡ false)
  second_use_ends_sessions token fresh later s p done =
      let (t, (held, (unused, (account, after)))) =
        refresh_access_token-inv token fresh s p (find (has_hash (hash_token token)) s.tokens) refl
          done in
      let s' = rotated t p.access_for fresh s in
      let same : p.access_for.id ≡ t.user_id =
        (eq_iff p.access_for.id t.user_id).0
          (find_sound (is_account t.user_id) s.accounts p.access_for account) in
      let again =
        find-revoke (λ x. x.id == t.id) (hash_token token) s.tokens t _ held (ground arith) in
      let ends =
        reuse-ends token later (revoked_form t) s' again refl
          (any_account-find t.user_id s.accounts p.access_for account) in
      rw (after, ends, same) (refl, any_live-revoke t.user_id s'.tokens)

-- A password reset that succeeds leaves the user no refresh token that is not revoked, and takes the
-- reset code away.
pub reset_ends_sessions :
    (hash_otp bcrypt_hash : String → String) (user_id otp password : String) (s : Server)
    → (reset_password_user hash_otp bcrypt_hash user_id otp password s).0 ≡ ok tt
    → (any
          (is_live_of user_id)
          (reset_password_user hash_otp bcrypt_hash user_id otp password s).1.tokens
        ≡ false)
      × ((reset_password_user hash_otp bcrypt_hash user_id otp password s).1.otps
          ≡ erase (otp_key "password_reset" user_id) s.otps)
unfolding reset_password_user verify_otp update_user_password increment_token_version update_user
    revoke_refresh_tokens_by_user_id
reset_ends_sessions hash_otp bcrypt_hash user_id otp password s done =
    grind (arith, any_live-revoke user_id s.tokens)
