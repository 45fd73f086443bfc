-- ===== src/Outbox.antt =====
-- The integration outbox, backend/crates/db/src/commerce.rs: claiming under a lease,
-- acknowledgement and retry with a growing delay. Times are in microseconds. The columns that a
-- claim only passes on to the worker (type, aggregate, key, payload) are left out.
pub mod Delay
pub mod Claim
pub mod Batch
pub mod Evolution
pub mod Lifecycle
pub mod Requeue
mod Tests
use essentials_merchant.Base.{
  ℕ, ℤ, pos, ◌+◌, ◌-◌, ◌*◌, ◌^◌, min, String, Char, Bool, true, false, not, ◌&&◌, ◌||◌, Option,
  none, some, List, [], ◌∷◌, map, if◌then◌else◌, ◌==◌, leb, ltb, find?, any, select, update_where,
  count_where, take, clamp, saturating_mul, saturating_pow, map_chars, take_chars, is_control,
}

pub data Status : Type 0 where
  pending processing delivered dead : Status

pub record Event : Type 0 where
  pub id : ℕ
  pub sequence : ℕ
  pub status : Status
  pub attempts : ℕ
  pub available_at : ℕ
  pub locked_at : Option ℕ
  pub last_error : Option String
  pub created_at : ℕ
  pub delivered_at : Option ℕ
  pub requeue_count : ℕ
  pub requeued_at : Option ℕ

pub record OutboxPolicy : Type 0 where
  pub lease_seconds : ℤ
  pub retry_base_seconds : ℤ
  pub retry_max_seconds : ℤ
  pub max_attempts : ℤ

abbrev pub default_policy : OutboxPolicy
default_policy = record {
  lease_seconds = pos 300;
  retry_base_seconds = pos 2;
  retry_max_seconds = pos 3600;
  max_attempts = pos 20;
}

abbrev pub second : ℕ
second = 1000000

abbrev pub is_pending : Status → Bool
is_pending Status.pending = true
is_pending _ = false

abbrev pub is_processing : Status → Bool
is_processing Status.processing = true
is_processing _ = false

abbrev pub is_delivered : Status → Bool
is_delivered Status.delivered = true
is_delivered _ = false

abbrev pub is_dead : Status → Bool
is_dead Status.dead = true
is_dead _ = false

-- locked_at < now() - make_interval(secs => lease), which NULL does not meet.
abbrev pub lease_expired : ℕ → ℕ → Option ℕ → Bool
lease_expired now lease none = false
lease_expired now lease (some t) = ltb (t + lease * second) now

abbrev pub error_or : String → Option String → Option String
error_or e none = some e
error_or e (some old) = some old

abbrev pub is_lapsed : ℕ → ℕ → Event → Bool
is_lapsed now lease e = is_processing e.status && lease_expired now lease e.locked_at

abbrev pub released : Event → Event
released e = record e {
  status = Status.pending;
  locked_at = none;
  last_error = error_or "worker lease expired" e.last_error;
}

-- The first statement of a claim.
pub release_lapsed : ℕ → OutboxPolicy → List Event → List Event
release_lapsed now policy =
    update_where (is_lapsed now (clamp 1 86400 policy.lease_seconds)) released

-- ORDER BY created_at, rows of one time in table order.
pub insert_by_age : Event → List Event → List Event
insert_by_age e [] = e ∷ []
insert_by_age e (f ∷ fs) =
    let later = f ∷ insert_by_age e fs in
    if leb e.created_at f.created_at then e ∷ f ∷ fs else later

pub sort_by_age : List Event → List Event
sort_by_age [] = []
sort_by_age (e ∷ es) = insert_by_age e (sort_by_age es)

-- `skipped` holds of the rows that another transaction has locked: FOR UPDATE SKIP LOCKED.
abbrev pub is_due : ℕ → (ℕ → Bool) → Event → Bool
is_due now skipped e = is_pending e.status && leb e.available_at now && not (skipped e.id)

pub selected : ℕ → (ℕ → Bool) → ℤ → List Event → List Event
unfolding sort_by_age
selected now skipped limit es =
    take (clamp 1 100 limit) (sort_by_age (select (is_due now skipped) es))

abbrev pub claimed : ℕ → Event → Event
claimed now e = record e {
  status = Status.processing;
  locked_at = some now;
  attempts = e.attempts + 1;
}

abbrev pub has_id : ℕ → Event → Bool
has_id id e = e.id == id

abbrev pub is_among : List Event → Event → Bool
is_among chosen e = any (has_id e.id) chosen

-- The events handed to the worker, and the table. The database promises no order of the events that
-- it returns; here they stand by age, and each with all columns of its row.
unfoldable pub claim_outbox_with_policy :
    List Event → ℕ → (ℕ → Bool) → ℤ → OutboxPolicy → List Event × List Event
unfolding release_lapsed selected
claim_outbox_with_policy es now skipped limit policy =
    let free = release_lapsed now policy es in
    let chosen = selected now skipped limit free in
    (map (claimed now) chosen, update_where (is_among chosen) (claimed now) free)

unfoldable pub claim_outbox : List Event → ℕ → (ℕ → Bool) → ℤ → List Event × List Event
unfolding claim_outbox_with_policy
claim_outbox es now skipped limit = claim_outbox_with_policy es now skipped limit default_policy

abbrev pub is_in_work : ℕ → Event → Bool
is_in_work id e = has_id id e && is_processing e.status

abbrev pub acknowledged : ℕ → Event → Event
acknowledged now e = record e {
  status = Status.delivered;
  delivered_at = some now;
  locked_at = none;
  last_error = none;
}

unfoldable pub acknowledge_outbox : List Event → ℕ → ℕ → Bool × List Event
acknowledge_outbox es now id =
    (count_where (is_in_work id) es == 1, update_where (is_in_work id) (acknowledged now) es)

space_for_control : Char → Char
space_for_control c = if is_control c then " " else c

unfoldable pub sanitize_integration_error : String → String
unfolding space_for_control
sanitize_integration_error error = take_chars 512 (map_chars space_for_control error)

-- `attempts.saturating_sub(1).clamp(0, 20)`, for the count of attempts, which is never negative.
pub exponent : ℕ → ℕ
exponent attempts = min (attempts - 1) 20

pub delay_seconds : OutboxPolicy → ℕ → ℕ
unfolding exponent
delay_seconds policy attempts =
    min
      (saturating_mul (clamp 1 3600 policy.retry_base_seconds)
        (saturating_pow 2 (exponent attempts)))
      (clamp 1 86400 policy.retry_max_seconds)

pub retry_status : OutboxPolicy → ℕ → Status
retry_status policy attempts =
    if leb (clamp 1 100 policy.max_attempts) attempts then Status.dead else Status.pending

abbrev pub retried : ℕ → Status → ℕ → String → Event → Event
retried now status delay error e = record e {
  status = status;
  available_at = now + delay * second;
  locked_at = none;
  last_error = some error;
}

unfoldable pub retry_outbox_with_policy :
    List Event → ℕ → ℕ → String → OutboxPolicy → Bool × List Event
unfolding delay_seconds retry_status sanitize_integration_error
retry_outbox_with_policy es now id error policy = elim (find? (is_in_work id) es) [
  | none ↦ (false, es)
  | some e ↦ (
    count_where (is_in_work id) es == 1,
    update_where (is_in_work id)
        (retried now (retry_status policy e.attempts) (delay_seconds policy e.attempts)
          (sanitize_integration_error error))
        es,
  )
]

unfoldable pub retry_outbox : List Event → ℕ → ℕ → String → Bool × List Event
unfolding retry_outbox_with_policy
retry_outbox es now id error = retry_outbox_with_policy es now id error default_policy
