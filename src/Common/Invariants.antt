-- ===== src/Common/Invariants.antt =====
-- Predicates on the state that an action keeps, whether it returns or throws.
use mathlib.Core.Path.{◌≡◌, refl}
use mathlib.Core.Bool.{Bool, true, false}
use native.Mathlib.Omega.{arith}
use url_shortner_system_desi.Common.Tests.{if◌then◌else◌}
use url_shortner_system_desi.Common.Errors.{
  Error, Result, ok, err, Action, ◌>>=◌, ◌>>◌, pure, gets, throw, throw_if,
}

pub record Keeps {W A : Type 0} (P : W → Type 0) (m : Action W A) : Type 0 where
  pub at : (w : W) → P w → P (m w).1

module _ {W : Type 0} {P : W → Type 0} where
  pub bind_result :
      {A B : Type 0} {f : A → Action W B} (r : Result A) (w : W)
      → ((a : A) → Keeps P (f a))
      → P w
      → P (elim r as (λ _. Result B × W) [ ok a ↦ f a w | err e ↦ (err e, w) ]).1
  bind_result (ok a) w k p = (k a).at w p
  bind_result (err e) w k p = p

  pub Keeps-bind :
      {A B : Type 0} {m : Action W A} {f : A → Action W B}
      → Keeps P m
      → ((a : A) → Keeps P (f a))
      → Keeps P (m >>= f)
  Keeps-bind {m} h k = record { at = λ w p. bind_result (m w).0 (m w).1 k (h.at w p) }

  pub Keeps-then :
      {B : Type 0} {m : Action W (Unit {0})} {n : Action W B}
      → Keeps P m
      → Keeps P n
      → Keeps P (m >> n)
  Keeps-then h k = Keeps-bind h (λ _. k)

  pub Keeps-pure : {A : Type 0} {a : A} → Keeps P (pure a)
  Keeps-pure = record { at = λ w p. p }

  pub Keeps-gets : {A : Type 0} {f : W → A} → Keeps P (gets f)
  Keeps-gets = record { at = λ w p. p }

  pub Keeps-throw : {A : Type 0} {e : Error} → Keeps P (throw {A = A} e)
  Keeps-throw = record { at = λ w p. p }

  pub Keeps-throw_if : (b : Bool) (e : Error) → Keeps P (throw_if b e)
  Keeps-throw_if b e = record { at = λ w p. p }

  pub Keeps-if :
      {A : Type 0} (b : Bool) {m n : Action W A}
      → Keeps P m
      → Keeps P n
      → Keeps P (if b then m else n)
  Keeps-if true h k = h
  Keeps-if false h k = k

  pub ruleset keeps_rules =
      (Keeps-bind, Keeps-then, Keeps-pure, Keeps-gets, Keeps-throw, Keeps-throw_if, Keeps-if)

-- A call that returned hands its value and its state to what follows.
pub bind-ok {ℓ κ} :
    {W : Type 0} {A : Type ℓ} {B : Type κ} (m : Action W A) (f : A → Action W B) {w v : W} {a : A}
    → m w ≡ (ok a, v)
    → (m >>= f) w ≡ f a v
bind-ok {W} {A} {B} m f e =
    λ i. elim (e i).0 as (λ _. Result B × W) [ ok a ↦ f a (e i).1 | err x ↦ (err x, (e i).1) ]

pub bind-err {ℓ κ} :
    {W : Type 0} {A : Type ℓ} {B : Type κ} (m : Action W A) (f : A → Action W B) {w v : W}
    {x : Error}
    → m w ≡ (err x, v)
    → (m >>= f) w ≡ (err x, v)
bind-err {W} {A} {B} m f e =
    λ i. elim (e i).0 as (λ _. Result B × W) [ ok a ↦ f a (e i).1 | err x ↦ (err x, (e i).1) ]

-- A call that returned was made of two that did.
pub bind-eq-ok :
    {W A B : Type 0} (m : Action W A) (f : A → Action W B) (w v : W) (b : B)
    → (m >>= f) w ≡ (ok b, v)
    → (a : A) × (u : W) × (m w ≡ (ok a, u)) × (f a u ≡ (ok b, v))
bind-eq-ok {W} {A} {B} m f w v b h = split (m w) refl h
  where
    split :
        (o : Result A × W)
        → m w ≡ o
        → elim o.0 as (λ _. Result B × W) [ ok a ↦ f a o.1 | err e ↦ (err e, o.1) ] ≡ (ok b, v)
        → (a : A) × (u : W) × (m w ≡ (ok a, u)) × (f a u ≡ (ok b, v))
    split (ok a, u) e h = (a, u, e, h)
    split (err x, u) e h = ground arith
