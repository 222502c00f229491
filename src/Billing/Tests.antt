-- ===== src/Billing/Tests.antt =====
-- Claims and leases at concrete inputs.
use url_shortner_system_desi.Common.{
  Option, String, Bool, true, false, none, some, List, [], ◌∷◌, arith, ◌≡◌, ◌+◌, ◌<◌, ◌⊎◌, ok, refl,
  str_eq,
}
use url_shortner_system_desi.Billing.Queue.{
  RecoveryJob, JobOutcome, webhook, refund, leased, claim_recovery, finish_recovery,
}
use url_shortner_system_desi.Billing.Policy.{Payment, partially_refunded}
use url_shortner_system_desi.State.{monthly}
use url_shortner_system_desi.Billing.Period.{
  UtcDate, IsDate, last_day, period_end, period_end_lem, month_index, cycles,
}
use url_shortner_system_desi.Billing.Leases.{stale_worker_writes_nothing, lease_is_exclusive}

abbrev by_text : String → String → Bool
by_text a b = false

abbrev hook : RecoveryJob
hook = record {
  id = "webhook:1";
  kind = webhook;
  resource_id = "1";
  user_id = none;
  due_at = 100;
  lease_until = some 900;
  lease_token = some "old";
  failures = 0;
  last_error = none;
  review_required = false;
}

abbrev back : RecoveryJob
back = record hook {
  id = "refund:2";
  kind = refund;
  due_at = 200;
  lease_until = none;
  lease_token = none;
}

abbrev queue : List RecoveryJob
queue = hook ∷ back ∷ []

abbrev after : List RecoveryJob
after = leased 1000 "new" hook ∷ back ∷ []

claimed : claim_recovery by_text 1000 "new" none queue ≡ (some (leased 1000 "new" hook), after)
unfolding claim_recovery
claimed = refl

abbrev over : JobOutcome
over = record { error = none; delay = 0; review = false; done = true }

stale_worker_writes_nothing_example : finish_recovery 1500 1 2 hook over after ≡ after
stale_worker_writes_nothing_example =
    stale_worker_writes_nothing by_text 1000 "new" none queue after (leased 1000 "new" hook) hook
      over 1500 1 2 claimed refl refl

abbrev last : List RecoveryJob
last = leased 1000 "new" hook ∷ leased 2000 "other" back ∷ []

claimed_next :
    claim_recovery by_text 2000 "other" none after ≡ (some (leased 2000 "other" back), last)
unfolding claim_recovery
claimed_next = refl

lease_is_exclusive_example : str_eq "refund:2" "webhook:1" ≡ false
lease_is_exclusive_example =
    lease_is_exclusive by_text 1000 2000 "new" "other" none none queue after last
      (leased 1000 "new" hook) (leased 2000 "other" back) claimed (omega arith) claimed_next

abbrev charge : Payment
charge = record {
  amount = 500;
  refunded_amount = 200;
  status = partially_refunded;
  gateway = "razorpay";
  gateway_payment_id = some "pay_1";
  paid_at = 1000;
}

abbrev no_refund : Option Bool
no_refund = none

abbrev end_of_january : UtcDate
end_of_january = record { year = 2024; month = 0; day = 31; ms = 5 }

end_of_january-IsDate : IsDate end_of_january
unfolding last_day
end_of_january-IsDate = omega arith

abbrev end_of_february : UtcDate
end_of_february = record { year = 2024; month = 1; day = 29; ms = 5 }

leap_month : period_end end_of_january (some monthly) ≡ ok end_of_february
unfolding period_end last_day
leap_month = refl

period_end_lem_example :
    (end : UtcDate) × (period_end end_of_january (some monthly) ≡ ok end)
    × IsDate end
    × (month_index end ≡ month_index end_of_january + cycles monthly)
    × ((end.day ≡ 31) ⊎ ((end.day ≡ last_day end.year end.month) × (end.day < 31)))
    × (end.ms ≡ 5)
period_end_lem_example = period_end_lem end_of_january monthly end_of_january-IsDate
