-- ===== src/Purchases/OneActive.antt =====
-- The subscriptions that purchases start, end and bring back. `drawn_at` is the number of the row
-- that an identifier was made for.
use url_shortner_system_desi.Common.{
  ℕ, ◌+◌, ◌≤◌, String, true, false, All, update_where, ◌≡◌, refl, sym, ap, ◌∙◌, arith,
  if◌then◌else◌, str_eq, eq_iff, eq_refl, Bool-cases, inl, inr, modify, Keeps, All-weaken,
  All-update_where, All-append,
}
use url_shortner_system_desi.State.{
  Subscription, is_active_status, SubscriptionStatus, active, past_due, canceled, expired, trialing,
}
use url_shortner_system_desi.Purchases.State.{Ledger, PaymentRow}
use url_shortner_system_desi.Purchases.Activation.{
  is_running, is_running_of, canceled_at_now, bought, replace_subscription,
}
use url_shortner_system_desi.Purchases.Balance.{revived}
use url_shortner_system_desi.Billing.Period.{UtcDate}

idle_status : (st : SubscriptionStatus) → is_running st ≡ false → is_active_status st ≡ false
idle_status active h = ground arith
idle_status past_due h = ground arith
idle_status canceled h = refl
idle_status expired h = refl
idle_status trialing h = ground arith

pub is_same : (v u : String) → v ≡ u → str_eq v u ≡ true
is_same v u same = rw same (eq_refl u)

module _ (drawn_at : String → ℕ) where
  -- The row belongs to the owner of its identifier, was made before now, and is the active one of its
  -- user if it is active.
  abbrev pub Fits : (String → String) → (String → String) → ℕ → Subscription → Type 0
  Fits owner only drawn s =
      (owner s.id ≡ s.user_id)
      × (drawn_at s.id + 1 ≤ drawn)
      × (is_active_status s.status ≡ true → s.id ≡ only s.user_id)

  pub record OneActive (w : Ledger) : Type 0 where
    pub owner : String → String
    pub only : String → String
    pub fits : All (Fits owner only w.drawn) w.subscriptions

  -- What changes other tables keeps it.
  pub OneActive-same :
      (w v : Ledger)
      → v.subscriptions ≡ w.subscriptions
      → w.drawn ≤ v.drawn
      → OneActive w
      → OneActive v
  OneActive-same w v same more o = record {
    owner = o.owner;
    only = o.only;
    fits = rw same (
        All-weaken (Fits o.owner o.only w.drawn) (Fits o.owner o.only v.drawn) w.subscriptions
          (λ s f. (f.0, omega arith, f.2)) o.fits);
  }

  pub Keeps-modify :
      (f : Ledger → Ledger)
      → ((w : Ledger) → (f w).subscriptions ≡ w.subscriptions)
      → ((w : Ledger) → w.drawn ≤ (f w).drawn)
      → Keeps OneActive (modify f)
  Keeps-modify f same more = record { at = λ w o. OneActive-same w (f w) (same w) (more w) o }

  -- one user's entry of a map
  abbrev pub set_to : String → String → (String → String) → String → String
  set_to key value f k = if str_eq k key then value else f k

  -- A subscription that no longer is active fits.
  pub Fits-ended :
      (owner only : String → String) (d : ℕ) (s t : Subscription)
      → t.id ≡ s.id
      → t.user_id ≡ s.user_id
      → is_active_status t.status ≡ false
      → Fits owner only d s
      → Fits owner only d t
  Fits-ended owner only d s t same_id same_user over (f, g, h) =
      (ap owner same_id ∙ f ∙ sym same_user, rw same_id g, λ on. ground arith)

  -- the user has no active subscription
  abbrev pub Idle : String → Subscription → Type 0
  Idle u s = str_eq s.user_id u ≡ true → is_active_status s.status ≡ false

  -- The rows are as before, but none of the user's is active.
  abbrev pub IdleFits : (String → String) → (String → String) → ℕ → String → Subscription → Type 0
  IdleFits owner only d u s = Fits owner only d s × Idle u s

  module _ (owner only : String → String) (d : ℕ) (u : String) where
    -- Another row of the user may be the active one then.
    pub IdleFits-other :
        (id : String) (s : Subscription)
        → IdleFits owner only d u s
        → Fits owner (set_to u id only) d s
    IdleFits-other id s ((f, g, h), idle) = (
      f,
      g,
      λ on. elim (Bool-cases (str_eq s.user_id u)) [
        | inl mine ↦ ground (arith, idle mine)
        | inr other ↦ rw other (h on)
      ],
    )

    pub IdleFits-revived :
        (prev s : Subscription)
        → owner prev.id ≡ u
        → IdleFits owner only d u s
        → Fits owner (set_to u prev.id only) d (if str_eq s.id prev.id then revived s else s)
    IdleFits-revived prev s its x = elim (Bool-cases (str_eq s.id prev.id)) [
      | inl hit ↦
          let same : s.id ≡ prev.id = (eq_iff s.id prev.id).0 hit in
          let mine : s.user_id ≡ u = sym x.0.0 ∙ ap owner same ∙ its in
          rw hit (
            x.0.0,
            x.0.1,
            λ on.
                same
                ∙ ap (λ b. if b then prev.id else only s.user_id) (sym (is_same s.user_id u mine)),
          )
      | inr miss ↦ rw miss (IdleFits-other prev.id s x)
    ]

    IdleFits-running :
        (now : ℕ) (s : Subscription)
        → Fits owner only d s
        → IdleFits owner only d u (if is_running_of u s then canceled_at_now now s else s)
    IdleFits-running now s x = elim (Bool-cases (is_running_of u s)) [
      | inl hit ↦
          rw hit (Fits-ended owner only d s (canceled_at_now now s) refl refl refl x, λ mine. refl)
      | inr miss ↦ rw miss (x, λ mine. idle_status s.status (ground arith))
    ]

  -- A new row: no older one has its identifier.
  module _ (owner only : String → String) (d : ℕ) (u id : String) (fresh : drawn_at id ≡ d) where
    IdleFits-older :
        (s : Subscription)
        → IdleFits owner only d u s
        → Fits (set_to id u owner) (set_to u id only) (d + 1) s
    IdleFits-older s x =
        let y = IdleFits-other owner only d u id s x in
        let other : str_eq s.id id ≡ false = elim (Bool-cases (str_eq s.id id)) [
          | inl same ↦
              let at_d : drawn_at s.id ≡ d = ap drawn_at ((eq_iff s.id id).0 same) ∙ fresh in
              ground (arith, at_d, x.0.1)
          | inr miss ↦ miss
        ] in
        (rw other y.0, omega arith, y.2)

    Fits-bought :
        (s : Subscription)
        → s.id ≡ id
        → s.user_id ≡ u
        → Fits (set_to id u owner) (set_to u id only) (d + 1) s
    Fits-bought s same mine = (
      ap (λ b. if b then u else owner s.id) (is_same s.id id same) ∙ sym mine,
      rw (ap drawn_at same ∙ fresh) (omega arith),
      λ on. same ∙ ap (λ b. if b then id else only s.user_id) (sym (is_same s.user_id u mine)),
    )

  module _ (new_id : ℕ → String) (fresh : (n : ℕ) → drawn_at (new_id n) ≡ n) (to_utc : ℕ → UtcDate)
      (from_utc : UtcDate → ℕ) where
    pub replace_subscription-OneActive :
        (p : PaymentRow) (end : ℕ)
        → Keeps OneActive (replace_subscription to_utc from_utc new_id p end)
    unfolding replace_subscription
    replace_subscription-OneActive p end = record {
      at = λ w o.
          let id = new_id w.drawn in
          let idle =
            All-update_where (Fits o.owner o.only w.drawn)
              (IdleFits o.owner o.only w.drawn p.user_id) (is_running_of p.user_id)
              (canceled_at_now w.now) w.subscriptions
              (IdleFits-running o.owner o.only w.drawn p.user_id w.now) o.fits in
          record {
            owner = set_to id p.user_id o.owner;
            only = set_to p.user_id id o.only;
            fits =
                All-append
                  (Fits (set_to id p.user_id o.owner) (set_to p.user_id id o.only) (w.drawn + 1))
                  (update_where (is_running_of p.user_id) (canceled_at_now w.now) w.subscriptions)
                  (bought w.now id p end)
                  (All-weaken (IdleFits o.owner o.only w.drawn p.user_id)
                    (Fits (set_to id p.user_id o.owner) (set_to p.user_id id o.only) (w.drawn + 1))
                    (update_where (is_running_of p.user_id) (canceled_at_now w.now) w.subscriptions)
                    (IdleFits-older o.owner o.only w.drawn p.user_id id (fresh w.drawn)) idle)
                  (Fits-bought o.owner o.only w.drawn p.user_id id (fresh w.drawn)
                    (bought w.now id p end) refl refl);
          };
    }
