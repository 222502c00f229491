-- ===== src/Auth/Guessing.antt =====
-- What a one-time code withstands: repeated use and guessing.
use url_shortner_system_desi.Common.{
  ℕ, ◌+◌, ◌≤◌, ◌<◌, String, false, none, some, List, [], ◌∷◌, ok, err, arith, ◌≡◌, All, length,
  lookup-insert, lookup-erase, str_eq, eq_refl, app_error, Dict, ap,
}
use url_shortner_system_desi.Auth.State.{Server, Kept, redis_get, redis_count, or_zero}
use url_shortner_system_desi.Auth.Otp.{verify_otp}

module _ (hash_otp : String → String) (key : String) where
  abbrev tries : Server → ℕ
  tries s = or_zero (redis_get s.now key s.attempts)

  -- A code that has been accepted is gone: the next check of the key is refused with status 400,
  -- whatever code it is given.
  pub verify_otp-single_use :
      (otp again : String) (s : Server)
      → (verify_otp hash_otp key otp s).0 ≡ ok tt
      → (verify_otp hash_otp key again (verify_otp hash_otp key otp s).1).0
        ≡ err (app_error "Code not found or expired" 400)
  unfolding verify_otp
  verify_otp-single_use otp again s done =
      grind (arith, lookup-erase key key s.otps, lookup-erase key key s.attempts, eq_refl key)

  redis_get-count :
      (now : ℕ) (d : Dict (Kept ℕ))
      → redis_get now key (redis_count now key 900 d) ≡ some (or_zero (redis_get now key d) + 1)
  redis_get-count now d = rw (lookup-insert key key _ d, eq_refl key) (ground arith)

  abbrev counted : Server → Server
  counted s = record s { attempts = redis_count s.now key 900 s.attempts }

  verify_otp-wrong :
      (otp stored : String) (s : Server)
      → redis_get s.now key s.otps ≡ some stored
      → str_eq stored (hash_otp otp) ≡ false
      → tries s < 5
      → verify_otp hash_otp key otp s ≡ (err (app_error "Invalid code" 400), counted s)
  unfolding verify_otp
  verify_otp-wrong otp stored s held wrong few = ground arith

  verify_otp-locked :
      (otp : String) (s : Server)
      → 5 ≤ tries s
      → verify_otp hash_otp key otp s
        ≡ (err (app_error "Too many invalid attempts. Request a new code." 429), s)
  unfolding verify_otp
  verify_otp-locked otp s many = ground arith

  abbrev pub guess_all : List String → Server → Server
  guess_all [] s = s
  guess_all (g ∷ gs) s = guess_all gs (verify_otp hash_otp key g s).1

  guess_all-tries :
      (gs : List String) (stored : String) (s : Server)
      → redis_get s.now key s.otps ≡ some stored
      → All (λ g. str_eq stored (hash_otp g) ≡ false) gs
      → tries s + length gs ≤ 5
      → tries (guess_all gs s) ≡ tries s + length gs
  guess_all-tries [] stored s held wrong few = omega arith
  guess_all-tries (g ∷ gs) stored s held wrong few =
      let one : tries (counted s) ≡ tries s + 1 = ap or_zero (redis_get-count s.now s.attempts) in
      let step = verify_otp-wrong g stored s held wrong.0 (omega arith) in
      let rest = guess_all-tries gs stored (counted s) held wrong.1 (omega arith) in
      let moved = ap (λ r. tries (guess_all gs r.1)) step in omega (arith, moved, rest, one)

  -- After five wrong guesses at a stored code, counted from no attempts, every further guess is
  -- refused with status 429, the right code too, and nothing changes.
  pub five_guesses_lock :
      (gs : List String) (otp stored : String) (s : Server)
      → redis_get s.now key s.otps ≡ some stored
      → redis_get s.now key s.attempts ≡ none
      → All (λ g. str_eq stored (hash_otp g) ≡ false) gs
      → length gs ≡ 5
      → verify_otp hash_otp key otp (guess_all gs s)
        ≡ (err (app_error "Too many invalid attempts. Request a new code." 429), guess_all gs s)
  five_guesses_lock gs otp stored s held fresh wrong five =
      let start : tries s ≡ 0 = ap or_zero fresh in
      verify_otp-locked otp (guess_all gs s)
        (omega (arith, guess_all-tries gs stored s held wrong (omega arith)))
