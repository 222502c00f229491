-- ===== src/Repository/Unique.antt =====
-- The table keeps its short codes distinct under every statement, and what a later query by short
-- code then finds.
use url_shortner_system_desi.Common.{
  ◌≡◌, refl, String, Bool, true, false, not, ◌&&◌, ◌||◌, some, List, [], ◌∷◌, ◌++◌, str_eq, any,
  find, select, update_where, arith, eq_iff, eq_refl, Bool-cases, inl, inr, ◌≢◌,
}
use url_shortner_system_desi.State.{Url}
use url_shortner_system_desi.Repository.Defs.{has_code}

abbrev pub UniqueCodes : List Url → Type 0
UniqueCodes [] = Unit
UniqueCodes (u ∷ us) = (any (has_code u.short_code) us ≡ false) × UniqueCodes us

any_code-append :
    (code : String) (us vs : List Url)
    → any (has_code code) (us ++ vs) ≡ (any (has_code code) us || any (has_code code) vs)
any_code-append code [] vs = refl
any_code-append code (u ∷ us) vs = ground (arith, any_code-append code us vs)

pub UniqueCodes-insert :
    (us : List Url) (v : Url)
    → UniqueCodes us
    → any (has_code v.short_code) us ≡ false
    → UniqueCodes (us ++ v ∷ [])
UniqueCodes-insert [] v h free = (refl, tt)
UniqueCodes-insert (u ∷ us) v h free = ground (
  arith,
  UniqueCodes-insert us v h.1,
  any_code-append u.short_code us (v ∷ []),
  eq_iff u.short_code v.short_code,
  eq_iff v.short_code u.short_code,
)

-- The row of a code that was free is found by it once it is inserted.
pub find-insert :
    (us : List Url) (v : Url)
    → any (has_code v.short_code) us ≡ false
    → find (has_code v.short_code) (us ++ v ∷ []) ≡ some v
find-insert [] v free = ground (arith, eq_refl v.short_code)
find-insert (u ∷ us) v free = ground (arith, find-insert us v)

-- The rows of other codes are found as before.
pub find-insert_ne :
    (us : List Url) (v : Url) (code : String)
    → (str_eq v.short_code code) ≡ false
    → find (has_code code) (us ++ v ∷ []) ≡ find (has_code code) us
find-insert_ne [] v code ne = ground arith
find-insert_ne (u ∷ us) v code ne = ground (arith, find-insert_ne us v code)

-- An UPDATE of the rows that `p` picks out, all of the code `code`, to rows of the code `new`.
module _ (p : Url → Bool) (f : Url → Url) (code new : String)
    (picked : (u : Url) → p u ≡ true → u.short_code ≡ code)
    (renamed : (u : Url) → p u ≡ true → (f u).short_code ≡ new) where
  update_where_of_free : (us : List Url) → any (has_code code) us ≡ false → update_where p f us ≡ us
  update_where_of_free [] h = refl
  update_where_of_free (u ∷ us) h =
      ground (arith, update_where_of_free us, picked u, eq_iff u.short_code code)

  any_code-update_where :
      (us : List Url) (c : String)
      → any (has_code c) us ≡ false
      → c ≢ new
      → any (has_code c) (update_where p f us) ≡ false
  any_code-update_where [] c h ne = refl
  any_code-update_where (u ∷ us) c h ne =
      ground (arith, any_code-update_where us c, renamed u, eq_iff (f u).short_code c)

  any_picked_of_free : (us : List Url) → any (has_code code) us ≡ false → any p us ≡ false
  any_picked_of_free [] h = refl
  any_picked_of_free (u ∷ us) h =
      ground (arith, any_picked_of_free us, picked u, eq_iff u.short_code code)

  any_new_of_free :
      (us : List Url)
      → any (λ u. has_code new u && not (p u)) us ≡ false
      → any p us ≡ false
      → any (has_code new) us ≡ false
  any_new_of_free [] h k = refl
  any_new_of_free (u ∷ us) h k = ground (arith, any_new_of_free us)

  pub UniqueCodes-update_where :
      (us : List Url)
      → UniqueCodes us
      → any (λ u. has_code new u && not (p u)) us ≡ false
      → UniqueCodes (update_where p f us)
  UniqueCodes-update_where [] h free = tt
  UniqueCodes-update_where (u ∷ us) h free = elim (Bool-cases (p u)) [
    | inl chosen ↦
        let gone : any (has_code code) us ≡ false = rw (picked u chosen) at h.0 in
        let new_free = any_new_of_free us (ground arith) (any_picked_of_free us gone) in
        rw (chosen, renamed u chosen, update_where_of_free us gone) (new_free, h.1)
    | inr kept ↦
        let other : u.short_code ≢ new = λ e. ground (arith, eq_iff u.short_code new) in
        rw kept (
          any_code-update_where us u.short_code h.0 other,
          UniqueCodes-update_where us h.1 (ground arith),
        )
  ]

-- The row that an UPDATE picks out is found by its new code afterwards.
module _ (p : Url → Bool) (f : Url → Url) (code new : String)
    (picked : (u : Url) → p u ≡ true → u.short_code ≡ code)
    (renamed : (u : Url) → p u ≡ true → (f u).short_code ≡ new) where
  pub find-update_where :
      (us : List Url) (u : Url)
      → find p us ≡ some u
      → any (λ v. has_code new v && not (p v)) us ≡ false
      → find (has_code new) (update_where p f us) ≡ some (f u)
  find-update_where [] u found free = ground arith
  find-update_where (v ∷ us) u found free =
      ground (arith, find-update_where us u, renamed v, eq_refl new, eq_iff v.short_code new)

  -- Rows of a code that is neither the old nor the new one are found as before.
  pub find-update_where_ne :
      (us : List Url) (c : String)
      → c ≢ code
      → c ≢ new
      → find (has_code c) (update_where p f us) ≡ find (has_code c) us
  find-update_where_ne [] c h k = refl
  find-update_where_ne (v ∷ us) c h k = ground (
    arith,
    find-update_where_ne us c h k,
    picked v,
    renamed v,
    eq_iff v.short_code c,
    eq_iff (f v).short_code c,
  )

-- An UPDATE that leaves the codes alone.
module _ (p : Url → Bool) (f : Url → Url) (same : (u : Url) → (f u).short_code ≡ u.short_code) where
  any_code-update_where_same :
      (us : List Url) (c : String) → any (has_code c) (update_where p f us) ≡ any (has_code c) us
  any_code-update_where_same [] c = refl
  any_code-update_where_same (u ∷ us) c = ground (arith, any_code-update_where_same us c, same u)

  pub UniqueCodes-update_where_same :
      (us : List Url) → UniqueCodes us → UniqueCodes (update_where p f us)
  UniqueCodes-update_where_same [] h = tt
  UniqueCodes-update_where_same (u ∷ us) h = ground (
    arith,
    UniqueCodes-update_where_same us h.1,
    any_code-update_where_same us u.short_code,
    same u,
  )

-- A DELETE.
any_code-select :
    (p : Url → Bool) (us : List Url) (c : String)
    → any (has_code c) us ≡ false
    → any (has_code c) (select p us) ≡ false
any_code-select p [] c h = refl
any_code-select p (u ∷ us) c h = ground (arith, any_code-select p us c)

pub UniqueCodes-select :
    (p : Url → Bool) (us : List Url) → UniqueCodes us → UniqueCodes (select p us)
UniqueCodes-select p [] h = tt
UniqueCodes-select p (u ∷ us) h =
    ground (arith, UniqueCodes-select p us h.1, any_code-select p us u.short_code)
