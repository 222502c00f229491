-- ===== src/Common/Errors.antt =====
-- utils/AppError.js, and the exceptions that a handler can throw or receive.
use Prim.Native.Nat.{ℕ}
use Prim.Native.String.{String}
use mathlib.Core.Bool.{Bool, true, false}
use mathlib.Core.List.{List, [], ◌∷◌}
use mathlib.Core.Option.{Option, none, some}

-- `code` and `constraint` are those of a PostgreSQL error; the status code of `AppError` and the
-- `statusCode` that some code sets on a plain `Error` are one field.
pub record Error : Type 0 where
  pub message : String
  pub status_code : Option ℕ
  pub is_operational : Bool
  pub details : Option (List (String × String))
  pub error_code : Option String
  pub code : Option String
  pub constraint : Option String

abbrev pub app_error_with : String → ℕ → Option (List (String × String)) → Option String → Error
app_error_with message status details error_code = record {
  message = message;
  status_code = some status;
  is_operational = true;
  details = details;
  error_code = error_code;
  code = none;
  constraint = none;
}

abbrev pub app_error : String → ℕ → Error
app_error message status = app_error_with message status none none

abbrev pub plan_limit_error : String → String → Error
plan_limit_error feature message =
    app_error_with message 403 (some (("featureKey", feature) ∷ [])) (some "PLAN_LIMIT")

pub data Result {ℓ} (A : Type ℓ) : Type ℓ where
  ok : A → Result A
  err : Error → Result A

-- A handler over the state `W`. What was written before a throw stays written.
abbrev pub Action {ℓ} : Type 0 → Type ℓ → Type ℓ
Action W A = W → Result A × W

infixl 5 ◌>>=◌ ◌>>◌
abbrev pub ◌>>=◌ {ℓ κ} :
    {W : Type 0} {A : Type ℓ} {B : Type κ} → Action W A → (A → Action W B) → Action W B
◌>>=◌ m f w = let (r, w') = m w in elim r [ ok a ↦ f a w' | err e ↦ (err e, w') ]

abbrev pub ◌>>◌ {ℓ} : {W : Type 0} {B : Type ℓ} → Action W (Unit {0}) → Action W B → Action W B
m >> k = m >>= λ _. k

module _ {W : Type 0} where
  abbrev pub pure {ℓ} : {A : Type ℓ} → A → Action W A
  pure a w = (ok a, w)

  abbrev pub throw {ℓ} : {A : Type ℓ} → Error → Action W A
  throw e w = (err e, w)

  abbrev pub gets {ℓ} : {A : Type ℓ} → (W → A) → Action W A
  gets f w = (ok (f w), w)

  abbrev pub modify : (W → W) → Action W (Unit {0})
  modify f w = (ok tt, f w)

  abbrev pub throw_if : Bool → Error → Action W (Unit {0})
  throw_if b e w = (elim b [ true ↦ err e | false ↦ ok tt ], w)
