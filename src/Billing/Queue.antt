-- ===== src/Billing/Queue.antt =====
-- The table `BillingRecoveryJob` and the statements that claim and finish a job. Each runs as one
-- step: `FOR UPDATE SKIP LOCKED` keeps two claims off the same row.
use url_shortner_system_desi.Common.{
  take_chars, ℕ, ◌+◌, ◌*◌, ◌/◌, ◌^◌, min, max, String, Bool, true, false, not, ◌&&◌, ◌||◌, Option,
  none, some, List, [], ◌∷◌, leb, ltb, ◌==◌, if◌then◌else◌, str_eq, select, update_where,
}
use url_shortner_system_desi.State.{sql_eq}

pub data JobKind : Type 0 where
  webhook checkout refund payment : JobKind

pub record RecoveryJob : Type 0 where
  pub id : String
  pub kind : JobKind
  pub resource_id : String
  pub user_id : Option String
  pub due_at : ℕ
  pub lease_until : Option ℕ
  pub lease_token : Option String
  pub failures : ℕ
  pub last_error : Option String
  pub review_required : Bool

abbrev pub lease_ms : ℕ
lease_ms = 5 * 60 * 1000

abbrev pub is_free : ℕ → Option ℕ → Bool
is_free now none = true
is_free now (some until) = ltb until now

abbrev pub is_wanted : Option String → String → Bool
is_wanted none id = true
is_wanted (some only) id = str_eq id only

abbrev pub is_claimable : ℕ → Option String → RecoveryJob → Bool
is_claimable now only j = leb j.due_at now && is_wanted only j.id && is_free now j.lease_until

abbrev pub is_job : String → RecoveryJob → Bool
is_job id j = str_eq j.id id

abbrev pub leased : ℕ → String → RecoveryJob → RecoveryJob
leased now token j = record j { lease_token = some token; lease_until = some (now + lease_ms) }

-- `id_before` is the order of texts in the database.
module _ (id_before : String → String → Bool) where
  abbrev pub comes_first : RecoveryJob → RecoveryJob → Bool
  comes_first a b = ltb a.due_at b.due_at || (a.due_at == b.due_at && id_before a.id b.id)

  unfoldable pub first_of : RecoveryJob → Option RecoveryJob → RecoveryJob
  first_of j none = j
  first_of j (some k) = if comes_first k j then k else j

  -- ORDER BY due_at, id LIMIT 1
  unfoldable pub candidate : (RecoveryJob → Bool) → List RecoveryJob → Option RecoveryJob
  unfolding first_of
  candidate p [] = none
  candidate p (j ∷ js) = if p j then some (first_of j (candidate p js)) else candidate p js

  unfoldable pub take_job :
      ℕ → String → Option RecoveryJob → List RecoveryJob → Option RecoveryJob × List RecoveryJob
  take_job now token none js = (none, js)
  take_job now token (some j) js =
      (some (leased now token j), update_where (is_job j.id) (leased now token) js)

  -- `token` is the drawn UUID
  unfoldable pub claim_recovery :
      ℕ → String → Option String → List RecoveryJob → Option RecoveryJob × List RecoveryJob
  unfolding candidate take_job
  claim_recovery now token only js = take_job now token (candidate (is_claimable now only) js) js

-- `Math.random()` is the fraction `r / d`; a date drops the fraction of a millisecond.
abbrev pub recovery_delay : ℕ → ℕ → ℕ → ℕ → ℕ
recovery_delay failures retry_after r d =
    min 86400000 (max (15000 * 2 ^ min failures 12 * (8 * d + 4 * r) / (10 * d)) retry_after)

-- an error by its message and its `retryAfterMs`, 0 where it has none
pub record JobError : Type 0 where
  pub message : String
  pub retry_after : ℕ

pub record JobOutcome : Type 0 where
  pub error : Option JobError
  pub delay : ℕ
  pub review : Bool
  pub done : Bool

-- WHERE id = … AND lease_token = …
abbrev pub holds : RecoveryJob → RecoveryJob → Bool
holds job j = str_eq j.id job.id && sql_eq j.lease_token job.lease_token

abbrev pub failures_after : RecoveryJob → Option JobError → ℕ
failures_after job none = 0
failures_after job (some e) = job.failures + 1

abbrev pub error_text : Option JobError → Option String
error_text none = none
error_text (some e) = some (take_chars 500 e.message)

module _ (now r d : ℕ) where
  abbrev pub next_due : RecoveryJob → JobOutcome → Option JobError → ℕ
  next_due job o none = now + o.delay
  next_due job o (some e) = now + recovery_delay (job.failures + 1) e.retry_after r d

  abbrev pub rescheduled : RecoveryJob → JobOutcome → RecoveryJob → RecoveryJob
  rescheduled job o j = record j {
    due_at = next_due job o o.error;
    lease_until = none;
    lease_token = none;
    failures = failures_after job o.error;
    last_error = error_text o.error;
    review_required = o.review || leb 8 (failures_after job o.error);
  }

  abbrev pub is_over : JobOutcome → Option JobError → Bool
  is_over o none = o.done
  is_over o (some e) = false

  unfoldable pub finish_recovery : RecoveryJob → JobOutcome → List RecoveryJob → List RecoveryJob
  finish_recovery job o js =
      if is_over o o.error
      then select (λ j. not (holds job j)) js
      else update_where (holds job) (rescheduled job o) js
