-- ===== src/ShortCode/Frame.antt =====
-- What every insertion keeps, the retry loop of generateShortCode.js keeps.
use url_shortner_system_desi.Common.{
  ℕ, zero, suc, ◌+◌, String, Result, ok, err, Action, Keeps, Bool-cases, inl, inr,
}
use url_shortner_system_desi.ShortCode.{
  is_short_code_conflict, attempt_insert, after_round, insert_rounds, insert_with_unique_code,
}

module _ {W A : Type 0} {P : W → Type 0} (insert : String → Action W A)
    (generate : ℕ → Result String) (keep : (c : String) → Keeps P (insert c)) where
  attempt_insert-Keeps : (i : ℕ) → Keeps P (attempt_insert insert generate i)
  unfolding attempt_insert
  attempt_insert-Keeps i = record { at = λ w p. attempted (generate i) w p }
    where
      attempted :
          (r : Result String) (w : W)
          → P w
          → P (elim r as (λ _. Result A × W) [ ok c ↦ insert c w | err e ↦ (err e, w) ]).1
      attempted (ok c) w p = (keep c).at w p
      attempted (err e) w p = p

  insert_rounds-Keeps : (left i : ℕ) → Keeps P (insert_rounds insert generate left i)
  unfolding insert_rounds after_round
  insert_rounds-Keeps zero i = record { at = λ w p. p }
  insert_rounds-Keeps (suc left) i = record {
    at = λ w p.
        after (insert_rounds insert generate left (i + 1)) (attempt_insert insert generate i w)
          ((attempt_insert-Keeps i).at w p) (λ x q. (insert_rounds-Keeps left (i + 1)).at x q);
  }
    where
      after :
          (rest : Action W A) (o : Result A × W)
          → P o.1
          → ((w : W) → P w → P (rest w).1)
          → P (after_round insert generate rest o).1
      after rest (ok a, w) p k = p
      after rest (err e, w) p k = elim (Bool-cases (is_short_code_conflict e)) [
        | inl again ↦ rw again (k w p)
        | inr done ↦ rw done p
      ]

  pub insert_with_unique_code-Keeps :
      (attempts : ℕ) → Keeps P (insert_with_unique_code insert generate attempts)
  unfolding insert_with_unique_code
  insert_with_unique_code-Keeps attempts = insert_rounds-Keeps attempts 0
