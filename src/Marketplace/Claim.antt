-- ===== src/Marketplace/Claim.antt =====
-- `claim_due_runs` and `enqueue_due_schedules`. `skipped` holds of the rows that another
-- transaction has locked: FOR UPDATE SKIP LOCKED.
pub mod Exclusive
pub mod Batch
use Prim.Native.String.{◌++◌ as append_text}
use essentials_merchant.Base.{
  ℕ, ℤ, ◌+◌, ◌-◌, ◌*◌, String, Bool, true, false, not, ◌&&◌, ◌||◌, Option, none, some, List, [],
  ◌∷◌, map, if◌then◌else◌, ◌==◌, leb, ltb, find?, any, select, update_where, take, clamp, sort_by,
  Result, ok, err, ◌>>=◌,
}
use essentials_merchant.Marketplace.{
  MarketplaceDb, AmazonConnection, AmazonReportRun, ClaimedReportRun, AmazonReportSchedule,
  StoreError, is_open, is_run,
}
use essentials_merchant.Marketplace.Runs.{second}
use essentials_merchant.Marketplace.Queue.{Formats, Request, insert_run, is_connection}

-- locked_at < now() - interval '5 minutes', which NULL does not meet.
abbrev pub lease_expired : ℕ → Option ℕ → Bool
lease_expired now none = false
lease_expired now (some t) = ltb (t + 300 * second) now

abbrev pub is_lapsed : ℕ → AmazonReportRun → Bool
is_lapsed now r = lease_expired now r.locked_at && is_open r.status

abbrev pub released : ℕ → AmazonReportRun → AmazonReportRun
released now r = record r { locked_at = none; next_attempt_at = now }

unfoldable pub release_lapsed : ℕ → List AmazonReportRun → List AmazonReportRun
release_lapsed now = update_where (is_lapsed now) (released now)

abbrev pub is_unlocked : Option ℕ → Bool
is_unlocked none = true
is_unlocked (some t) = false

abbrev pub is_due : ℕ → (ℕ → Bool) → AmazonReportRun → Bool
is_due now skipped r =
    is_open r.status && is_unlocked r.locked_at && leb r.next_attempt_at now && not (skipped r.id)

-- ORDER BY next_attempt_at, created_at
abbrev pub due_before : AmazonReportRun → AmazonReportRun → Bool
due_before a b =
    ltb a.next_attempt_at b.next_attempt_at
    || (a.next_attempt_at == b.next_attempt_at && leb a.created_at b.created_at)

unfoldable pub selected : ℕ → (ℕ → Bool) → ℤ → List AmazonReportRun → List AmazonReportRun
selected now skipped limit rs =
    take (clamp 1 25 limit) (sort_by due_before (select (is_due now skipped) rs))

abbrev pub claimed : ℕ → AmazonReportRun → AmazonReportRun
claimed now r = record r { locked_at = some now; attempts = r.attempts + 1 }

abbrev pub is_among : List AmazonReportRun → AmazonReportRun → Bool
is_among chosen r = any (is_run r.id) chosen

abbrev pub with_connection : AmazonReportRun → AmazonConnection → ClaimedReportRun
with_connection r c = record {
  id = r.id;
  order = r.order;
  status = r.status;
  attempts = r.attempts;
  poll_attempts = r.poll_attempts;
  amazon_report_id = r.amazon_report_id;
  amazon_report_document_id = r.amazon_report_document_id;
  seller_id = c.seller_id;
  region = c.region;
  secret_ref = c.secret_ref;
  granted_roles = c.granted_roles;
  mode = c.mode;
}

abbrev pub put_joined :
    AmazonReportRun → Option AmazonConnection → List ClaimedReportRun → List ClaimedReportRun
put_joined r none rest = rest
put_joined r (some c) rest = with_connection r c ∷ rest

-- The join with the connections; the run refers to its connection by a foreign key.
abbrev pub joined : List AmazonConnection → List AmazonReportRun → List ClaimedReportRun
joined cs [] = []
joined cs (r ∷ rs) = put_joined r (find? (is_connection r.order.connection_id) cs) (joined cs rs)

-- The runs handed to the worker, and the database.
unfoldable pub claim_due_runs :
    MarketplaceDb → ℕ → (ℕ → Bool) → ℤ → List ClaimedReportRun × MarketplaceDb
unfolding release_lapsed selected
claim_due_runs db now skipped limit =
    let free = release_lapsed now db.runs in
    let chosen = selected now skipped limit free in
    (
      joined db.connections (map (claimed now) chosen),
      record db { runs = update_where (is_among chosen) (claimed now) free },
    )

abbrev pub is_schedule_due : ℕ → (ℕ → Bool) → AmazonReportSchedule → Bool
is_schedule_due now skipped s = s.enabled && leb s.next_run_at now && not (skipped s.id)

abbrev pub next_run_before : AmazonReportSchedule → AmazonReportSchedule → Bool
next_run_before a b = leb a.next_run_at b.next_run_at

pub due_schedules : MarketplaceDb → ℕ → (ℕ → Bool) → ℤ → List AmazonReportSchedule
due_schedules db now skipped limit =
    take (clamp 1 100 limit)
      (sort_by next_run_before (select (is_schedule_due now skipped) db.schedules))

abbrev pub scheduled : ℕ → AmazonReportSchedule → Request
scheduled now s = record {
  connection_id = s.connection_id;
  schedule_id = some s.id;
  marketplace_id = s.marketplace_id;
  report_type = s.report_type;
  data_start_time = some (now - s.interval_seconds * second);
  data_end_time = some now;
  report_options = s.report_options;
  trigger_source = "scheduled";
}

abbrev pub discriminator : Formats → AmazonReportSchedule → String
discriminator formats s =
    append_text "schedule:"
      (append_text (formats.uuid s.id) (append_text ":" (formats.rfc3339 s.next_run_at)))

abbrev pub is_schedule : ℕ → AmazonReportSchedule → Bool
is_schedule id s = s.id == id

abbrev pub enqueued : ℕ → ℕ → AmazonReportSchedule → AmazonReportSchedule
enqueued now interval s = record s {
  last_enqueued_at = some now;
  next_run_at = now + interval * second;
}

-- One turn of the loop over the schedules.
pub enqueue_schedule :
    Formats → MarketplaceDb → ℕ → ℕ → AmazonReportSchedule → Result StoreError MarketplaceDb
unfolding insert_run
enqueue_schedule formats db now new_id s = do
  (run, db') ← insert_run formats db now new_id (scheduled now s) (discriminator formats s)
  ok (record db' {
    schedules = update_where (is_schedule s.id) (enqueued now s.interval_seconds) db'.schedules;
  })

-- The loop; `fresh n` is the id drawn for the n-th run. It returns the count.
pub enqueue_schedules :
    Formats
    → (ℕ → ℕ)
    → ℕ
    → ℕ
    → MarketplaceDb
    → List AmazonReportSchedule
    → Result StoreError (ℕ × MarketplaceDb)
enqueue_schedules formats fresh now count db [] = ok (count, db)
enqueue_schedules formats fresh now count db (s ∷ ss) =
    enqueue_schedule formats db now (fresh count) s >>= λ db'.
    enqueue_schedules formats fresh now (count + 1) db' ss

unfoldable pub enqueue_due_schedules :
    Formats → (ℕ → ℕ) → MarketplaceDb → ℕ → (ℕ → Bool) → ℤ → Result StoreError (ℕ × MarketplaceDb)
unfolding due_schedules enqueue_schedules enqueue_schedule
enqueue_due_schedules formats fresh db now skipped limit =
    enqueue_schedules formats fresh now 0 db (due_schedules db now skipped limit)
