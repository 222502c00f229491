-- ===== src/Common/Lists.antt =====
-- Lists measured by native numbers, and predicates and tests over their entries.
use Prim.Native.Nat.{ℕ, zero, suc, ◌+◌}
use mathlib.Core.Path.{◌≡◌, refl, sym, ap, ◌∙◌}
use mathlib.Core.Logic.{inl, inr}
use mathlib.Core.Bool.{Bool, true, false, ◌&&◌, ◌||◌}
use mathlib.Core.List.{List, [], ◌∷◌, ◌++◌}
use mathlib.Core.Option.{Option, none, some}
use native.Mathlib.Omega.{arith}
use url_shortner_system_desi.Common.Tests.{Bool-cases, if◌then◌else◌}

abbrev pub All {ℓ κ} : {A : Type ℓ} → (A → Type κ) → List A → Type κ
All P [] = Unit
All P (x ∷ xs) = P x × All P xs

module _ {ℓ} {A : Type ℓ} where
  abbrev pub length : List A → ℕ
  length [] = 0
  length (x ∷ xs) = suc (length xs)

  -- `Array.prototype.some` and `every`
  abbrev pub any : (A → Bool) → List A → Bool
  any p [] = false
  any p (x ∷ xs) = p x || any p xs

  abbrev pub all : (A → Bool) → List A → Bool
  all p [] = true
  all p (x ∷ xs) = p x && all p xs

  -- `Array.prototype.find`, and the first row of a query
  abbrev pub find : (A → Bool) → List A → Option A
  find p [] = none
  find p (x ∷ xs) = if p x then some x else find p xs

  abbrev pub select : (A → Bool) → List A → List A
  select p [] = []
  select p (x ∷ xs) = if p x then x ∷ select p xs else select p xs

  -- the number of rows that a query counts
  abbrev pub count : (A → Bool) → List A → ℕ
  count p [] = 0
  count p (x ∷ xs) = (if p x then 1 else 0) + count p xs

  -- UPDATE … SET f WHERE p
  abbrev pub update_where : (A → Bool) → (A → A) → List A → List A
  update_where p f [] = []
  update_where p f (x ∷ xs) = (if p x then f x else x) ∷ update_where p f xs

  -- the first row of a query with an order: the first of the best
  abbrev pub best : (A → A → Bool) → (A → Bool) → List A → Option A
  best better p [] = none
  best better p (x ∷ xs) =
      let rest = best better p xs in
      if p x then some (elim rest [ none ↦ x | some y ↦ if better y x then y else x ]) else rest

  abbrev pub get_elem? : List A → ℕ → Option A
  get_elem? [] i = none
  get_elem? (x ∷ xs) zero = some x
  get_elem? (x ∷ xs) (suc i) = get_elem? xs i

  pub length-append : (xs ys : List A) → length (xs ++ ys) ≡ length xs + length ys
  length-append [] ys = omega arith
  length-append (x ∷ xs) ys = omega (arith, length-append xs ys)

  pub find_sound : (p : A → Bool) (xs : List A) (x : A) → find p xs ≡ some x → p x ≡ true
  find_sound p [] x h = ground arith
  find_sound p (y ∷ ys) x h = ground (arith, find_sound p ys x)

  pub find-none_iff_any : (p : A → Bool) (xs : List A) → any p xs ≡ false → find p xs ≡ none
  find-none_iff_any p [] h = refl
  find-none_iff_any p (x ∷ xs) h = ground (arith, find-none_iff_any p xs)

  pub count-append : (p : A → Bool) (xs ys : List A) → count p (xs ++ ys) ≡ count p xs + count p ys
  count-append p [] ys = omega arith
  count-append p (x ∷ xs) ys = ground (arith, count-append p xs ys)

-- Facts of every element, through updates and searches.
module _ {A : Type 0} (P Q : A → Type 0) where
  pub All-weaken : (ss : List A) → ((s : A) → P s → Q s) → All P ss → All Q ss
  All-weaken [] f ps = tt
  All-weaken (s ∷ ss) f (p, ps) = (f s p, All-weaken ss f ps)

  pub All-update_where :
      (p : A → Bool) (g : A → A) (ss : List A)
      → ((s : A) → P s → Q (if p s then g s else s))
      → All P ss
      → All Q (update_where p g ss)
  All-update_where p g [] f ps = tt
  All-update_where p g (s ∷ ss) f (x, ps) = (f s x, All-update_where p g ss f ps)

  -- the rows where a search finds nothing
  pub All-any :
      (p : A → Bool) (ss : List A)
      → any p ss ≡ false
      → ((s : A) → p s ≡ false → P s → Q s)
      → All P ss
      → All Q ss
  All-any p [] none_is f ps = tt
  All-any p (s ∷ ss) none_is f (x, ps) = (f s (ground arith) x, All-any p ss (ground arith) f ps)

pub All-append :
    {A : Type 0} (P : A → Type 0) (ss : List A) (s : A) → All P ss → P s → All P (ss ++ s ∷ [])
All-append P [] s ps p = (p, tt)
All-append P (t ∷ ss) s (q, ps) p = (q, All-append P ss s ps p)

pub find-All :
    {A : Type 0} (P : A → Type 0) (p : A → Bool) (ss : List A) (s : A)
    → All P ss
    → find p ss ≡ some s
    → (p s ≡ true) × P s
find-All P p [] s ps h = ground arith
find-All P p (t ∷ ss) s (x, ps) h = elim (Bool-cases (p t)) [
  | inl hit ↦ let same : t ≡ s = ground arith in rw (sym same) (hit, x)
  | inr miss ↦ find-All P p ss s ps (ground arith)
]

pub any-All :
    {A : Type 0} (P : A → Type 0) (p : A → Bool) (ss : List A)
    → All P ss
    → any p ss ≡ true
    → (s : A) × (p s ≡ true) × P s
any-All P p [] ps h = ground arith
any-All P p (t ∷ ss) (x, ps) h = elim (Bool-cases (p t)) [
  | inl hit ↦ (t, hit, x)
  | inr miss ↦ any-All P p ss ps (ground arith)
]

pub get_elem?-All :
    {A : Type 0} (P : A → Type 0) (ss : List A) (i : ℕ) (s : A)
    → All P ss
    → get_elem? ss i ≡ some s
    → P s
get_elem?-All P [] i s ps h = ground arith
get_elem?-All P (t ∷ ss) zero s (x, ps) h = let same : t ≡ s = ground arith in rw (sym same) x
get_elem?-All P (t ∷ ss) (suc i) s (x, ps) h = get_elem?-All P ss i s ps h

-- the row that an update changes, where the update keeps what it was found by
pub find-update_row :
    {A : Type 0} (p : A → Bool) (f : A → A) (xs : List A) (x : A)
    → ((y : A) → p (f y) ≡ p y)
    → find p xs ≡ some x
    → find p (update_where p f xs) ≡ some (f x)
find-update_row p f [] x same h = ground arith
find-update_row p f (y ∷ ys) x same h = elim (Bool-cases (p y)) [
  | inl hit ↦
      let at_x : y ≡ x = ground arith in
      let still : p (f y) ≡ true = same y ∙ hit in rw (hit, still) (ap (λ r. some (f r)) at_x)
  | inr miss ↦ rw (miss, miss) (find-update_row p f ys x same (ground arith))
]
