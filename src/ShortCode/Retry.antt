-- ===== src/ShortCode/Retry.antt =====
-- The retry loop `insertWithUniqueCode`, for any insertion that leaves the state alone when it
-- reports a short-code conflict.
use native.Mathlib.Nat.{add-zero, zero-add}
use url_shortner_system_desi.Common.{
  ℕ, zero, suc, ◌+◌, ◌<◌, ◌≤◌, ◌≡◌, refl, true, false, String, Error, Result, ok, err, Action,
  arith,
}
use url_shortner_system_desi.ShortCode.{
  is_short_code_conflict, no_code_error, attempt_insert, after_round, insert_rounds,
  insert_with_unique_code,
}

module _ {W A : Type 0} (insert : String → Action W A) (generate : ℕ → Result String) (w : W) where
  -- round `i`, started in the state `w`, ends in a conflict and changes nothing
  abbrev pub Collides : ℕ → Type 0
  Collides i =
      (e : Error) × (attempt_insert insert generate i w ≡ (err e, w))
      × (is_short_code_conflict e ≡ true)

  -- an outcome that ends the loop: a row, or an error of another kind
  abbrev pub Settles : Result A × W → Type 0
  Settles (ok a, w') = Unit
  Settles (err e, w') = is_short_code_conflict e ≡ false

  pub insert_rounds_exhausted :
      (left i : ℕ)
      → ((j : ℕ) → i ≤ j → j < i + left → Collides j)
      → insert_rounds insert generate left i w ≡ (err no_code_error, w)
  unfolding insert_rounds after_round
  insert_rounds_exhausted zero i h = refl
  insert_rounds_exhausted (suc left) i h =
      let (e, failed, conflict) = h i (omega arith) (omega arith) in
      let later = insert_rounds_exhausted left (i + 1) (λ j a b. h j (omega arith) (omega arith)) in
      rw (failed, conflict) later

  after_round-Settles :
      (rest : Action W A) (o : Result A × W) → Settles o → after_round insert generate rest o ≡ o
  unfolding after_round
  after_round-Settles rest (ok a, w') s = refl
  after_round-Settles rest (err e, w') s = rw s

  insert_rounds_settled :
      (left i k : ℕ) (o : Result A × W)
      → ((j : ℕ) → i ≤ j → j < i + k → Collides j)
      → attempt_insert insert generate (i + k) w ≡ o
      → Settles o
      → k < left
      → insert_rounds insert generate left i w ≡ o
  unfolding insert_rounds after_round
  insert_rounds_settled zero i k o h e s lt = absurd (omega arith)
  insert_rounds_settled (suc left) i zero o h e s lt =
      let now : attempt_insert insert generate i w ≡ o = rw add-zero at e in
      rw now (after_round-Settles (insert_rounds insert generate left (i + 1)) o s)
  insert_rounds_settled (suc left) i (suc k) o h e s lt =
      let (x, failed, conflict) = h i (omega arith) (omega arith) in
      let same : i + suc k ≡ i + 1 + k = omega arith in
      rw (failed, conflict)
        (insert_rounds_settled left (i + 1) k o (λ j a b. h j (omega arith) (omega arith))
          (rw same at e) s (omega arith))

  -- If the rounds before `k` end in conflicts that change nothing, and round `k` is within the
  -- allowance and ends otherwise, in a row or in another error, then that is the outcome of the call.
  pub insert_with_unique_code-first_settled :
      (attempts k : ℕ) (o : Result A × W)
      → ((j : ℕ) → j < k → Collides j)
      → attempt_insert insert generate k w ≡ o
      → Settles o
      → k < attempts
      → insert_with_unique_code insert generate attempts w ≡ o
  unfolding insert_with_unique_code
  insert_with_unique_code-first_settled attempts k o h e s lt =
      insert_rounds_settled attempts 0 k o (λ j a b. h j (omega arith)) (rw zero-add e) s lt

  -- If every allowed round ends in a conflict that changes nothing, the call throws the error with
  -- status 503 and changes nothing.
  pub insert_with_unique_code-exhausted :
      (attempts : ℕ)
      → ((j : ℕ) → j < attempts → Collides j)
      → insert_with_unique_code insert generate attempts w ≡ (err no_code_error, w)
  unfolding insert_with_unique_code
  insert_with_unique_code-exhausted attempts h =
      insert_rounds_exhausted attempts 0 (λ j a b. h j (omega arith))
