-- ===== src/Teams/Rows.antt =====
-- The rows of teams and memberships, and what keeps the owner of each team.
use url_shortner_system_desi.Common.{
  ◌>>=◌, ℕ, ◌+◌, ◌≤◌, String, Bool, true, false, not, ◌&&◌, Option, none, some, List, [], ◌∷◌, ◌++◌,
  Action, find, any, select, if◌then◌else◌, str_eq, update_where, arith, ◌≡◌, refl, sym, ap, ◌∙◌,
  eq_refl, eq_iff, Bool-cases, inl, inr, Keeps, Keeps-throw, All, All-weaken, All-update_where,
  All-append, find-All, Result, ok, err, Error,
}
use url_shortner_system_desi.State.{World}
use url_shortner_system_desi.Access.{TeamRole}
use url_shortner_system_desi.Teams.State.{Roster, Team, Membership, look, on_world}
use url_shortner_system_desi.Teams.Handlers.{
  is_admin_member, is_admin_role, is_accepted_in, is_owner_role, is_row, joined_now, accept_found,
  remove_found,
}

abbrev pub is_owner_of : Team → Membership → Bool
is_owner_of t m = is_accepted_in t.id t.owner_id m && is_owner_role m.role

module _ {A : Type 0} (p : A → Bool) where
  any-append_old : (xs ys : List A) → any p xs ≡ true → any p (xs ++ ys) ≡ true
  any-append_old [] ys h = ground arith
  any-append_old (x ∷ xs) ys h = ground (arith, any-append_old xs ys)

  pub any-append_last : (xs : List A) (y : A) → p y ≡ true → any p (xs ++ y ∷ []) ≡ true
  any-append_last [] y h = ground arith
  any-append_last (x ∷ xs) y h = ground (arith, any-append_last xs y h)

  any-update_where :
      (q : A → Bool) (f : A → A) (xs : List A)
      → ((x : A) → p x ≡ true → p (f x) ≡ true)
      → any p xs ≡ true
      → any p (update_where q f xs) ≡ true
  any-update_where q f [] k h = ground arith
  any-update_where q f (x ∷ xs) k h = ground (arith, k x, any-update_where q f xs k)

  any-select_kept :
      (P : A → Type 0) (q : A → Bool) (xs : List A)
      → ((x : A) → P x → p x ≡ true → q x ≡ true)
      → All P xs
      → any p xs ≡ true
      → any p (select q xs) ≡ true
  any-select_kept P q [] k ps h = ground arith
  any-select_kept P q (x ∷ xs) k (px, ps) h = ground (arith, k x px, any-select_kept P q xs k ps)

All-select :
    {A : Type 0} (P : A → Type 0) (q : A → Bool) (xs : List A) → All P xs → All P (select q xs)
All-select P q [] ps = tt
All-select P q (x ∷ xs) (px, ps) = elim (Bool-cases (q x)) [
  | inl hit ↦ rw hit (px, All-select P q xs ps)
  | inr miss ↦ rw miss (All-select P q xs ps)
]

module _ (drawn_at : String → ℕ) where
  abbrev pub Fits : (String → TeamRole) → ℕ → Membership → Type 0
  Fits role_at drawn m = (role_at m.id ≡ m.role) × (drawn_at m.id + 1 ≤ drawn)

  -- Every team has an accepted membership of its owner with the owner's role. Memberships with the same
  -- identifier have the same role.
  pub record IsOwned (s : Roster) : Type 0 where
    pub role_at : String → TeamRole
    pub fits : All (Fits role_at s.drawn) s.memberships
    pub owned : All (λ t. any (is_owner_of t) s.memberships ≡ true) s.teams

  IsOwned-world :
      {A : Type 0} (s : Roster) (o : A × World) → IsOwned s → IsOwned (record s { world = o.1 })
  IsOwned-world s o k = record { role_at = k.role_at; fits = k.fits; owned = k.owned }

  pub on_world-IsOwned : {A : Type 0} (m : Action World A) → Keeps IsOwned (on_world m)
  on_world-IsOwned m = record { at = λ s k. IsOwned-world s (m s.world) k }

  look_as :
      {A : Type 0} (f : Roster → A) (s : Roster) (o : Option Error)
      → IsOwned s
      → IsOwned
          (elim o as (λ _. Result A × Roster) [ none ↦ (ok (f s), s) | some e ↦ (err e, s) ]).1
  look_as f s none k = k
  look_as f s (some e) k = k

  pub look-IsOwned : {A : Type 0} (f : Roster → A) → Keeps IsOwned (look f)
  look-IsOwned f = record { at = λ s k. look_as f s s.world.db_error k }

  -- a new row beside the old ones
  module _ (s : Roster) (k : IsOwned s) (m : Membership) (drawn : ℕ)
      (later : s.drawn ≤ drawn_at m.id) (made : drawn_at m.id + 1 ≤ drawn) where
    abbrev pub role_with : String → TeamRole
    role_with id = if str_eq id m.id then m.role else k.role_at id

    Fits-older : (x : Membership) → Fits k.role_at s.drawn x → Fits role_with drawn x
    Fits-older x (f, g) = elim (Bool-cases (str_eq x.id m.id)) [
      | inl same ↦
          let at_m : drawn_at x.id ≡ drawn_at m.id = ap drawn_at ((eq_iff x.id m.id).0 same) in
          ground (arith, at_m, g)
      | inr miss ↦ (rw miss f, omega arith)
    ]

    pub Fits-role_with : All (Fits role_with drawn) (s.memberships ++ m ∷ [])
    Fits-role_with =
        All-append (Fits role_with drawn) s.memberships m
          (All-weaken (Fits k.role_at s.drawn) (Fits role_with drawn) s.memberships Fits-older
            k.fits)
          (ap (λ b. if b then m.role else k.role_at m.id) (eq_refl m.id), made)

    pub owned_with : All (λ t. any (is_owner_of t) (s.memberships ++ m ∷ []) ≡ true) s.teams
    owned_with =
        All-weaken (λ t. any (is_owner_of t) s.memberships ≡ true)
          (λ t. any (is_owner_of t) (s.memberships ++ m ∷ []) ≡ true) s.teams
          (λ t h. any-append_old (is_owner_of t) s.memberships (m ∷ []) h) k.owned

  pub accept_found-IsOwned : (o : Option Membership) → Keeps IsOwned (accept_found o)
  unfolding accept_found
  accept_found-IsOwned none = Keeps-throw
  accept_found-IsOwned (some m) = record {
    at = λ s k. record {
      role_at = k.role_at;
      fits =
          All-update_where (Fits k.role_at s.drawn) (Fits k.role_at s.drawn) (is_row m.id)
            (joined_now s.world.now) s.memberships
            (λ x f. elim (Bool-cases (is_row m.id x)) [ inl hit ↦ rw hit f | inr miss ↦ rw miss f ])
            k.fits;
      owned =
          All-weaken (λ t. any (is_owner_of t) s.memberships ≡ true)
            (λ t.
              any (is_owner_of t)
                (update_where (is_row m.id) (joined_now s.world.now) s.memberships)
              ≡ true)
            s.teams
            (λ t h.
              any-update_where (is_owner_of t) (is_row m.id) (joined_now s.world.now) s.memberships
                (λ x on. ground arith) h)
            k.owned;
    };
  }

  -- what goes on with the answer of a query, in the state that it saw
  pub look_then :
      {A B : Type 0} (f : Roster → A) (n : A → Action Roster B)
      → ((s : Roster) → IsOwned s → IsOwned (n (f s) s).1)
      → Keeps IsOwned (look f >>= n)
  look_then {A} {B} f n k = record { at = λ s o. go s s.world.db_error o }
    where
      go :
          (s : Roster) (e : Option Error)
          → IsOwned s
          → IsOwned
              (elim (elim e as (λ _. Result A × Roster) [
                | none ↦ (ok (f s), s)
                | some x ↦ (err x, s)
              ]).0
                as (λ _. Result B × Roster) [
                  | ok a ↦
                      n a
                        (elim e as (λ _. Result A × Roster) [
                          | none ↦ (ok (f s), s)
                          | some x ↦ (err x, s)
                        ]).1
                  | err x ↦ (
                    err x,
                    (elim e as (λ _. Result A × Roster) [
                      | none ↦ (ok (f s), s)
                      | some x ↦ (err x, s)
                    ]).1,
                  )
                ]).1
      go s none o = k s o
      go s (some x) o = o

  removed-IsOwned :
      (s : Roster) (k : IsOwned s) (m : Membership)
      → Fits k.role_at s.drawn m
      → is_owner_role m.role ≡ false
      → IsOwned (record s { memberships = select (λ x. not (is_row m.id x)) s.memberships })
  removed-IsOwned s k m fit plain = record {
    role_at = k.role_at;
    fits = All-select (Fits k.role_at s.drawn) (λ x. not (is_row m.id x)) s.memberships k.fits;
    owned =
        All-weaken (λ t. any (is_owner_of t) s.memberships ≡ true)
          (λ t. any (is_owner_of t) (select (λ x. not (is_row m.id x)) s.memberships) ≡ true)
          s.teams
          (λ t h.
            any-select_kept (is_owner_of t) (Fits k.role_at s.drawn) (λ x. not (is_row m.id x))
              s.memberships
              (λ x f on. elim (Bool-cases (is_row m.id x)) [
                | inl same ↦
                    let role : x.role ≡ m.role =
                      sym f.0 ∙ ap k.role_at ((eq_iff x.id m.id).0 same) ∙ fit.0 in
                    let plain_x : is_owner_role x.role ≡ false = ap is_owner_role role ∙ plain in
                    ground (arith, plain_x)
                | inr miss ↦ rw miss refl
              ])
              k.fits h)
          k.owned;
  }

  pub remove_found-IsOwned :
      (requester o : Option Membership) (p : Membership → Bool) (s : Roster)
      → find p s.memberships ≡ o
      → IsOwned s
      → IsOwned (remove_found requester o s).1
  unfolding remove_found
  remove_found-IsOwned requester none p s h k = k
  remove_found-IsOwned requester (some m) p s h k = elim (Bool-cases (is_owner_role m.role)) [
    | inl own ↦ rw own k
    | inr plain ↦ rw plain (elim (Bool-cases (is_admin_member requester && is_admin_role m.role)) [
      | inl both ↦ rw both k
      | inr fine ↦ rw fine (
          removed-IsOwned s k m (find-All (Fits k.role_at s.drawn) p s.memberships m k.fits h).1
            plain)
    ])
  ]
