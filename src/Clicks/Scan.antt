-- ===== src/Clicks/Scan.antt =====
-- Lists of subscriptions and what a query finds in them.
use url_shortner_system_desi.Common.{
  Bool, true, false, List, [], ◌∷◌, All, any, select, arith, ◌≡◌, refl, ◌⊎◌, inl, inr, Bool-cases,
}
use url_shortner_system_desi.State.{Subscription}
use url_shortner_system_desi.Clicks.Dunning.{is_sub}

abbrev pub IsIn : Subscription → List Subscription → Type 0
IsIn s [] = true ≡ false
IsIn s (t ∷ ts) = (s ≡ t) ⊎ IsIn s ts

-- No two subscriptions have the same identifier.
abbrev pub DistinctSubs : List Subscription → Type 0
DistinctSubs [] = Unit
DistinctSubs (s ∷ rest) = (any (is_sub s.id) rest ≡ false) × DistinctSubs rest

pub other_id :
    (sub s : Subscription) (rest : List Subscription)
    → any (is_sub sub.id) rest ≡ false
    → IsIn s rest
    → is_sub sub.id s ≡ false
other_id sub s [] h m = ground arith
other_id sub s (t ∷ rest) h (inl same) = rw same (ground arith)
other_id sub s (t ∷ rest) h (inr m) = other_id sub s rest (ground arith) m

module _ (p : Subscription → Bool) where
  pub any-select :
      (q : Subscription → Bool) (ss : List Subscription)
      → any q ss ≡ false
      → any q (select p ss) ≡ false
  any-select q [] h = refl
  any-select q (s ∷ ss) h = ground (arith, any-select q ss)

  pub select-DistinctSubs : (ss : List Subscription) → DistinctSubs ss → DistinctSubs (select p ss)
  select-DistinctSubs [] d = tt
  select-DistinctSubs (s ∷ ss) (alone, d) = elim (Bool-cases (p s)) [
    | inl hit ↦ rw hit (any-select (is_sub s.id) ss alone, select-DistinctSubs ss d)
    | inr miss ↦ rw miss (select-DistinctSubs ss d)
  ]

  pub select-All : (ss : List Subscription) → All (λ s. p s ≡ true) (select p ss)
  select-All [] = tt
  select-All (s ∷ ss) = elim (Bool-cases (p s)) [
    | inl hit ↦ rw hit (hit, select-All ss)
    | inr miss ↦ rw miss (select-All ss)
  ]

  -- every row that a query finds is among those it returns
  pub All-found :
      (ss found : List Subscription)
      → ((s : Subscription) → IsIn s (select p ss) → IsIn s found)
      → All (λ s. (p s ≡ false) ⊎ IsIn s found) ss
  All-found [] found k = tt
  All-found (s ∷ ss) found k = elim (Bool-cases (p s)) [
    | inl hit ↦ (inr (k s (rw hit (inl refl))), All-found ss found (λ t m. k t (rw hit (inr m))))
    | inr miss ↦ (inl miss, All-found ss found (λ t m. k t (rw miss m)))
  ]
