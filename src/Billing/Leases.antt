-- ===== src/Billing/Leases.antt =====
-- What a lease promises: one worker at a time, and no write by a worker whose lease has passed on.
use url_shortner_system_desi.Common.{
  Bool-cases, inl, inr, ℕ, ◌+◌, ◌≤◌, String, Bool, false, not, Option, none, some, List, [], ◌∷◌,
  arith, ◌≡◌, refl, str_eq, update_where, select,
}
use url_shortner_system_desi.State.{sql_eq}
use url_shortner_system_desi.Billing.Queue.{
  RecoveryJob, JobOutcome, is_claimable, is_job, leased, lease_ms, first_of, candidate, take_job,
  claim_recovery, holds, rescheduled, finish_recovery,
}

module _ (id token : String) (now : ℕ) (job : RecoveryJob) (mine : job.id ≡ id)
    (old : sql_eq (some token) job.lease_token ≡ false) where
  update-fenced :
      (f : RecoveryJob → RecoveryJob) (js : List RecoveryJob)
      → update_where (holds job) f (update_where (is_job id) (leased now token) js)
        ≡ update_where (is_job id) (leased now token) js
  update-fenced f [] = refl
  update-fenced f (j ∷ js) = rw mine (ground (arith, old, update-fenced f js))

  select-fenced :
      (js : List RecoveryJob)
      → select (λ j. not (holds job j)) (update_where (is_job id) (leased now token) js)
        ≡ update_where (is_job id) (leased now token) js
  select-fenced [] = refl
  select-fenced (j ∷ js) = rw mine (ground (arith, old, select-fenced js))

module _ (id_before : String → String → Bool) where
  take_job-inv :
      (now : ℕ) (token : String) (o : Option RecoveryJob) (js : List RecoveryJob) (k : RecoveryJob)
      (js' : List RecoveryJob)
      → take_job id_before now token o js ≡ (some k, js')
      → js' ≡ update_where (is_job k.id) (leased now token) js
  unfolding take_job
  take_job-inv now token none js k js' h = ground arith
  take_job-inv now token (some j) js k js' h = ground arith

  claim_recovery-inv :
      (now : ℕ) (token : String) (only : Option String) (js : List RecoveryJob) (k : RecoveryJob)
      (js' : List RecoveryJob)
      → claim_recovery id_before now token only js ≡ (some k, js')
      → js' ≡ update_where (is_job k.id) (leased now token) js
  unfolding claim_recovery
  claim_recovery-inv now token only js k js' h =
      take_job-inv now token (candidate id_before (is_claimable now only) js) js k js' h

  -- Once a job has been claimed again, a worker that holds an older claim of it, with another
  -- token, writes nothing when it finishes, whatever the outcome.
  pub stale_worker_writes_nothing :
      (now : ℕ) (token : String) (only : Option String) (js js' : List RecoveryJob)
      (k job : RecoveryJob) (o : JobOutcome) (later r d : ℕ)
      → claim_recovery id_before now token only js ≡ (some k, js')
      → job.id ≡ k.id
      → sql_eq (some token) job.lease_token ≡ false
      → finish_recovery later r d job o js' ≡ js'
  unfolding finish_recovery
  stale_worker_writes_nothing now token only js js' k job o later r d claimed mine old =
      let after = claim_recovery-inv now token only js k js' claimed in
      let kept = update-fenced k.id token now job mine old (rescheduled later r d job o) js in
      let left = select-fenced k.id token now job mine old js in
      rw after (ground (arith, kept, left))

  module _ (id token : String) (now later : ℕ) (only : Option String)
      (soon : later ≤ now + lease_ms) where
    first_of-other :
        (j : RecoveryJob) (o : Option RecoveryJob)
        → str_eq j.id id ≡ false
        → ((k : RecoveryJob) → o ≡ some k → str_eq k.id id ≡ false)
        → str_eq (first_of id_before j o).id id ≡ false
    unfolding first_of
    first_of-other j none other rest = other
    first_of-other j (some k) other rest = ground (arith, other, rest k refl)

    leased_not_claimable : (j : RecoveryJob) → is_claimable later only (leased now token j) ≡ false
    leased_not_claimable j = ground arith

    candidate-other :
        (js : List RecoveryJob) (k : RecoveryJob)
        → candidate id_before
            (is_claimable later only)
            (update_where (is_job id) (leased now token) js)
          ≡ some k
        → str_eq k.id id ≡ false
    unfolding candidate
    candidate-other [] k h = ground arith
    candidate-other (j ∷ js) k h = elim (Bool-cases (is_job id j)) [
      | inl same ↦ candidate-other js k (rw (same, leased_not_claimable j) at h)
      | inr other ↦
          let rest =
            first_of-other j
              (candidate id_before (is_claimable later only)
                (update_where (is_job id) (leased now token) js))
              other (candidate-other js) in
          let here = rw other at h in ground (arith, rest, here, candidate-other js k)
    ]

  take_job-id :
      (now : ℕ) (token : String) (o : Option RecoveryJob) (js : List RecoveryJob) (k : RecoveryJob)
      (js' : List RecoveryJob)
      → take_job id_before now token o js ≡ (some k, js')
      → (j : RecoveryJob) × (o ≡ some j) × (k.id ≡ j.id)
  unfolding take_job
  take_job-id now token none js k js' h = ground arith
  take_job-id now token (some j) js k js' h = (j, refl, ground arith)

  -- While a claim's lease lasts, no other claim gets the same job.
  pub lease_is_exclusive :
      (now later : ℕ) (token token' : String) (only only' : Option String)
      (js js' js'' : List RecoveryJob) (k k' : RecoveryJob)
      → claim_recovery id_before now token only js ≡ (some k, js')
      → later ≤ now + lease_ms
      → claim_recovery id_before later token' only' js' ≡ (some k', js'')
      → str_eq k'.id k.id ≡ false
  unfolding claim_recovery
  lease_is_exclusive now later token token' only only' js js' js'' k k' claimed soon again =
      let after = claim_recovery-inv now token only js k js' claimed in
      let (j, found, same) =
        take_job-id later token' (candidate id_before (is_claimable later only') js') js' k' js''
          again in
      let other = candidate-other k.id token now later only' soon js j (rw (← after) found) in
      rw same other
