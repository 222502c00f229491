-- ===== src/Purchases/Paging.antt =====
-- The loop of `fetchProcessedRefunds` against a provider that serves a history by pages.
use url_shortner_system_desi.Common.{
  ℕ, zero, suc, ◌+◌, ◌*◌, ◌-◌, ◌≤◌, String, Bool, true, false, Option, some, List, [], ◌∷◌, ◌++◌,
  ◌≡◌, refl, sym, ap, ◌∙◌, arith, Result, ok, err, Error, app_error, if◌then◌else◌, length, select,
  ltb, Bool-cases, inl, inr,
}
use url_shortner_system_desi.Purchases.Gateway.{
  Gateway, RefundEntity, Reply, is_processed, page_at, collect_pages, fetch_processed_refunds,
  request,
}

module _ {ℓ} {A : Type ℓ} where
  abbrev pub take : ℕ → List A → List A
  take zero xs = []
  take (suc n) [] = []
  take (suc n) (x ∷ xs) = x ∷ take n xs

  abbrev pub drop : ℕ → List A → List A
  drop zero xs = xs
  drop (suc n) [] = []
  drop (suc n) (x ∷ xs) = drop n xs

  take_all : (n : ℕ) (xs : List A) → length xs ≤ n → take n xs ≡ xs
  take_all zero [] h = refl
  take_all zero (x ∷ xs) h = ground arith
  take_all (suc n) [] h = refl
  take_all (suc n) (x ∷ xs) h = ap (λ t. x ∷ t) (take_all n xs (omega arith))

  length-take : (n : ℕ) (xs : List A) → n ≤ length xs → length (take n xs) ≡ n
  length-take zero xs h = refl
  length-take (suc n) [] h = ground arith
  length-take (suc n) (x ∷ xs) h = ap suc (length-take n xs (omega arith))

  length-drop : (n : ℕ) (xs : List A) → length (drop n xs) ≡ length xs - n
  length-drop zero xs = omega arith
  length-drop (suc n) [] = omega arith
  length-drop (suc n) (x ∷ xs) = omega (arith, length-drop n xs)

  drop-drop : (n m : ℕ) (xs : List A) → drop n (drop m xs) ≡ drop (m + n) xs
  drop-drop n zero xs = ap (λ k. drop k xs) (omega arith)
  drop-drop zero (suc m) [] = ap (λ k. drop k []) {x = suc m} (omega arith)
  drop-drop (suc n) (suc m) [] = ap (λ k. drop k []) {x = suc (m + suc n)} (omega arith)
  drop-drop n (suc m) (x ∷ xs) =
      drop-drop n m xs ∙ ap (λ k. drop k (x ∷ xs)) {x = suc (m + n)} (omega arith)

  -- what is chosen of a page comes before what is chosen of the rest
  select-take :
      (p : A → Bool) (n : ℕ) (xs : List A)
      → select p (take n xs) ++ select p (drop n xs) ≡ select p xs
  select-take p zero xs = refl
  select-take p (suc n) [] = refl
  select-take p (suc n) (x ∷ xs) = elim (Bool-cases (p x)) [
    | inl hit ↦ rw hit (ap (λ t. x ∷ t) (select-take p n xs))
    | inr miss ↦ rw miss (select-take p n xs)
  ]

  append-append : (xs ys zs : List A) → xs ++ ys ++ zs ≡ xs ++ (ys ++ zs)
  append-append [] ys zs = refl
  append-append (x ∷ xs) ys zs = ap (λ t. x ∷ t) (append-append xs ys zs)

ltb_le : (n m : ℕ) → ltb n m ≡ true → n ≤ m
ltb_le n m h = ground arith

ltb_ge : (n m : ℕ) → ltb n m ≡ false → m ≤ n
ltb_ge n m h = ground arith

ltb_rounds : (n r : ℕ) → ltb n 100 ≡ true → ltb n (suc r * 100) ≡ true
ltb_rounds n r h = ground arith

ltb-sub : (n r : ℕ) → ltb n 100 ≡ false → ltb (n - 100) (r * 100) ≡ ltb n (suc r * 100)
ltb-sub n r h = ground arith

abbrev pub long_history : Error
long_history = app_error "This refund history requires a billing review." 409

-- the answer to a request for the page after `skip` entries
abbrev pub served : List RefundEntity → ℕ → Option (Reply (Option (List RefundEntity)))
served history skip =
    some (record { status = 200; body = some (some (take 100 (drop skip history))) })

module _ (g : Gateway) (payment_id : String) (history : List RefundEntity)
    (configured : g.is_configured ≡ true)
    (serves : (skip : ℕ) → g.refund_page payment_id skip ≡ served history skip) where
  page_at_lem : (skip : ℕ) → page_at g payment_id skip ≡ ok (take 100 (drop skip history))
  unfolding request
  page_at_lem skip = rw (configured, serves skip) refl

  -- the last page, and a full one
  module _ (rounds skip : ℕ) (found : List RefundEntity) where
    abbrev rest : List RefundEntity
    rest = drop skip history

    abbrev sum_up : ℕ → List RefundEntity → List RefundEntity → Result (List RefundEntity)
    sum_up most before left =
        if ltb (length left) most then ok (before ++ select is_processed left) else err long_history

    last_page :
        ltb (length rest) 100 ≡ true
        → collect_pages g payment_id (suc rounds) skip found ≡ sum_up (suc rounds * 100) found rest
    unfolding collect_pages
    last_page short =
        let whole : take 100 rest ≡ rest = take_all 100 rest (ltb_le (length rest) 100 short) in
        let few : ltb (length rest) (suc rounds * 100) ≡ true =
          ltb_rounds (length rest) rounds short in
        rw (collect_pages, page_at_lem skip, whole, short, few) refl

    full_page :
        ltb (length rest) 100 ≡ false
        → collect_pages g payment_id rounds
            (skip + 100)
            (found ++ select is_processed (take 100 rest))
          ≡ sum_up
              (rounds * 100)
              (found ++ select is_processed (take 100 rest))
              (drop (skip + 100) history)
        → collect_pages g payment_id (suc rounds) skip found ≡ sum_up (suc rounds * 100) found rest
    unfolding collect_pages
    full_page long more =
        let full : length (take 100 rest) ≡ 100 =
          length-take 100 rest (ltb_ge (length rest) 100 long) in
        let left : drop (skip + 100) history ≡ drop 100 rest = sym (drop-drop 100 skip history) in
        let same : ltb (length (drop 100 rest)) (rounds * 100)
            ≡ ltb (length rest) (suc rounds * 100) =
          rw (length-drop 100 rest) (ltb-sub (length rest) rounds long) in
        let joined : (found ++ select is_processed (take 100 rest))
              ++ select is_processed (drop 100 rest)
            ≡ found ++ select is_processed rest =
          append-append found (select is_processed (take 100 rest))
            (select is_processed (drop 100 rest))
          ∙ ap (λ t. found ++ t) (select-take is_processed 100 rest) in
        rw (collect_pages, page_at_lem skip, full) (more ∙ rw (left, same, joined) refl)

  collect_pages_lem :
      (rounds skip : ℕ) (found : List RefundEntity)
      → collect_pages g payment_id rounds skip found
        ≡ sum_up rounds skip found (rounds * 100) found (drop skip history)
  unfolding collect_pages
  collect_pages_lem zero skip found = ground arith
  collect_pages_lem (suc rounds) skip found =
      elim (Bool-cases (ltb (length (drop skip history)) 100)) [
        | inl short ↦ last_page rounds skip found short
        | inr long ↦ full_page rounds skip found long (
            collect_pages_lem rounds (skip + 100)
              (found ++ select is_processed (take 100 (drop skip history))))
      ]

  -- Against a provider that serves a history of refunds a hundred at a time, the loop ends with the
  -- processed refunds of all of the history, in its order, where it is shorter than ten thousand, and
  -- with the error that asks for a review where it is not.
  pub fetch_processed_refunds_lem :
      fetch_processed_refunds g payment_id
      ≡ (if ltb (length history) 10000 then ok (select is_processed history) else err long_history)
  unfolding fetch_processed_refunds
  fetch_processed_refunds_lem = collect_pages_lem 100 0 []
