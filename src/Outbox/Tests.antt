-- ===== src/Outbox/Tests.antt =====
-- The theorems about the outbox at concrete tables.
use essentials_merchant.Base.{
  ℕ, pos, String, ◌≡◌, refl, ◌≤◌, ◌-◌, ◌*◌, ◌^◌, min, clamp, length, count_where, All, any, Bool,
  true, false, not, Option, none, List, [], ◌∷◌, RowByRow, all_chars, count_chars, is_control,
  arith,
}
use essentials_merchant.Outbox.{
  Event, Status, default_policy, has_id, is_due, claim_outbox_with_policy, delay_seconds,
  sanitize_integration_error, insert_by_age,
}
use essentials_merchant.Outbox.Delay.{delay_seconds-eq, sanitize_integration_error_clean}
use essentials_merchant.Outbox.Batch.{is_waiting, is_claim_of, claim_outbox-TakesOldest}
use essentials_merchant.Outbox.Claim.{claim_outbox-exclusive}
use essentials_merchant.Outbox.Lifecycle.{Op, run, run-Evolves}
use essentials_merchant.Outbox.Evolution.{Evolves}
use essentials_merchant.Outbox.Requeue.{Db}

abbrev event : ℕ → ℕ → Event
event id created_at = record {
  id = id;
  sequence = id;
  status = Status.pending;
  attempts = 0;
  available_at = 0;
  locked_at = none;
  last_error = none;
  created_at = created_at;
  delivered_at = none;
  requeue_count = 0;
  requeued_at = none;
}

abbrev table : List Event
table = event 1 20 ∷ event 2 10 ∷ []

abbrev nobody : ℕ → Bool
nobody id = false

abbrev store : Db
store = record { outbox = table; audit = []; remote = []; commands = [] }

delay_seconds-eq_example :
    (delay_seconds default_policy 4
      ≡ min
          (clamp 1 3600 default_policy.retry_base_seconds * 2 ^ min (4 - 1) 20)
          (clamp 1 86400 default_policy.retry_max_seconds))
    × (1 ≤ delay_seconds default_policy 4)
    × (delay_seconds default_policy 4 ≤ 86400)
delay_seconds-eq_example = delay_seconds-eq default_policy 4

fourth_delay : delay_seconds default_policy 4 ≡ 16
unfolding delay_seconds
fourth_delay = refl

sanitize_integration_error_clean_example :
    (count_chars (sanitize_integration_error "timed\tout") ≤ 512)
    × (all_chars (λ c. not (is_control c)) (sanitize_integration_error "timed\tout") ≡ true)
sanitize_integration_error_clean_example = sanitize_integration_error_clean "timed\tout"

claim_outbox-TakesOldest_example :
    (length (claim_outbox_with_policy table 100 nobody (pos 1) default_policy).0
      ≡ min
          (clamp 1 100 (pos 1))
          (count_where (is_waiting 100 (clamp 1 86400 default_policy.lease_seconds) nobody) table))
    × All
        (λ c.
          any (is_claim_of 100 (clamp 1 86400 default_policy.lease_seconds) nobody c) table ≡ true)
        (claim_outbox_with_policy table 100 nobody (pos 1) default_policy).0
    × All
        (λ e.
          is_due 100 nobody e ≡ true
          → All
              (λ c. c.created_at ≤ e.created_at)
              (claim_outbox_with_policy table 100 nobody (pos 1) default_policy).0)
        (claim_outbox_with_policy table 100 nobody (pos 1) default_policy).1
claim_outbox-TakesOldest_example = claim_outbox-TakesOldest table 100 nobody (pos 1) default_policy

-- The older of the two events is handed out first.
oldest_claimed :
    any (has_id 2) (claim_outbox_with_policy table 100 nobody (pos 1) default_policy).0 ≡ true
unfolding claim_outbox_with_policy insert_by_age
oldest_claimed = refl

claim_outbox-exclusive_example :
    any
      (has_id 2)
      (claim_outbox_with_policy
        (claim_outbox_with_policy table 100 nobody (pos 1) default_policy).1
        200
        nobody
        (pos 5)
        default_policy).0
    ≡ false
claim_outbox-exclusive_example =
    claim_outbox-exclusive table 100 200 nobody nobody (pos 1) (pos 5) default_policy default_policy
      2 (omega arith) oldest_claimed

abbrev no_uuid : String → Option ℕ
no_uuid text = none

abbrev operations : List Op
operations =
    Op.claim 100 nobody (pos 5) default_policy
    ∷ Op.acknowledge 110 2
    ∷ Op.retry 120 1 "timed out" default_policy
    ∷ []

run-Evolves_example : RowByRow Evolves store.outbox (run no_uuid operations store).outbox
run-Evolves_example = run-Evolves no_uuid operations store ((refl, tt), (tt, tt))
