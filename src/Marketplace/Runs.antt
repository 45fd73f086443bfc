-- ===== src/Marketplace/Runs.antt =====
-- The status writes of a report run, which go through the worker: each updates the row of the run
-- and appends an entry to its log in one transaction.
use essentials_merchant.Base.{
  ℕ, ℤ, pos, negsuc, ◌+◌, ◌*◌, leb, ltb, not, String, Bool, true, false, Option, none, some, ◌∷◌,
  if◌then◌else◌, any, update_where, Result, ok, err,
}
use essentials_merchant.Marketplace.{
  MarketplaceDb, AmazonReportRun, RunStatus, StoreError, foreign_key_violation, check_violation,
  datetime_overflow, StoredObservation, is_run,
}

abbrev pub second : ℕ
second = 1000000

-- A timestamp, in microseconds since 1970: those of the database end with the year 294276. The
-- interval of a delay that leads further does not fit either.
abbrev pub is_time : ℕ → Bool
is_time t = ltb t 9224318016000000000

-- A write of the timestamp `t`.
abbrev pub if_time : ℕ → Result StoreError MarketplaceDb → Result StoreError MarketplaceDb
if_time t write = if is_time t then write else err datetime_overflow

-- UPDATE amazon_report_runs SET f WHERE id = $1.
abbrev pub update_run : ℕ → (AmazonReportRun → AmazonReportRun) → MarketplaceDb → MarketplaceDb
update_run id f db = record db { runs = update_where (is_run id) f db.runs }

-- The log refers to the run by a foreign key.
unfoldable pub append_run_event :
    MarketplaceDb → ℕ → RunStatus → Option String → Result StoreError MarketplaceDb
append_run_event db id status message =
    if any (is_run id) db.runs
    then ok
        (record db { log = record { run_id = id; status = status; message = message } ∷ db.log })
    else err foreign_key_violation

-- COALESCE(column, now())
abbrev pub or_now : ℕ → Option ℕ → Option ℕ
or_now now none = some now
or_now now (some t) = some t

abbrev pub request_created : ℕ → String → AmazonReportRun → AmazonReportRun
request_created now report_id r = record r {
  status = RunStatus.polling;
  amazon_report_id = some report_id;
  requested_at = or_now now r.requested_at;
  next_attempt_at = now;
  locked_at = none;
}

unfoldable pub set_run_request_created :
    MarketplaceDb → ℕ → ℕ → String → Result StoreError MarketplaceDb
set_run_request_created db now id report_id =
    append_run_event (update_run id (request_created now report_id) db) id RunStatus.polling
      (some "Amazon report request accepted")

abbrev pub requesting_since : ℕ → AmazonReportRun → AmazonReportRun
requesting_since now r = record r {
  status = RunStatus.requesting;
  requested_at = or_now now r.requested_at;
}

unfoldable pub mark_run_requesting : MarketplaceDb → ℕ → ℕ → Result StoreError MarketplaceDb
mark_run_requesting db now id =
    append_run_event (update_run id (requesting_since now) db) id RunStatus.requesting
      (some "Submitting createReport request")

abbrev pub poll_pending : ℕ → ℕ → AmazonReportRun → AmazonReportRun
poll_pending now delay r = record r {
  status = RunStatus.polling;
  poll_attempts = r.poll_attempts + 1;
  next_attempt_at = now + delay * second;
  locked_at = none;
}

unfoldable pub set_run_poll_pending :
    MarketplaceDb → ℕ → ℕ → ℕ → String → Result StoreError MarketplaceDb
set_run_poll_pending db now id delay message = if_time (now + delay * second) (
    append_run_event (update_run id (poll_pending now delay) db) id RunStatus.polling
      (some message))

abbrev pub document_ready : ℕ → String → AmazonReportRun → AmazonReportRun
document_ready now document_id r = record r {
  status = RunStatus.downloading;
  amazon_report_document_id = some document_id;
  next_attempt_at = now;
  locked_at = none;
}

unfoldable pub set_run_document_ready :
    MarketplaceDb → ℕ → ℕ → String → Result StoreError MarketplaceDb
set_run_document_ready db now id document_id =
    append_run_event (update_run id (document_ready now document_id) db) id RunStatus.downloading
      (some "Amazon report document is ready")

abbrev pub or_zero : Option ℕ → ℕ
or_zero none = 0
or_zero (some n) = n

-- The status of a failure with a delay for a retry, or with none.
abbrev pub failure_status : Option ℕ → RunStatus
failure_status none = RunStatus.failed
failure_status (some delay) = RunStatus.polling

abbrev pub failure_time : ℕ → Option ℕ → Option ℕ
failure_time now none = some now
failure_time now (some delay) = none

abbrev pub after_failure : ℕ → String → String → Option ℕ → AmazonReportRun → AmazonReportRun
after_failure now code message retry_after r = record r {
  status = failure_status retry_after;
  failure_code = some code;
  failure_message = some message;
  next_attempt_at = now + or_zero retry_after * second;
  locked_at = none;
  completed_at = failure_time now retry_after;
}

unfoldable pub mark_run_failure :
    MarketplaceDb → ℕ → ℕ → String → String → Option ℕ → Result StoreError MarketplaceDb
mark_run_failure db now id code message retry_after = if_time (now + or_zero retry_after * second) (
    append_run_event (update_run id (after_failure now code message retry_after) db) id
      (failure_status retry_after) (some message))

abbrev pub to_retry : ℕ → RunStatus → String → String → ℕ → AmazonReportRun → AmazonReportRun
to_retry now status code message delay r = record r {
  status = status;
  failure_code = some code;
  failure_message = some message;
  next_attempt_at = now + delay * second;
  locked_at = none;
}

unfoldable pub retry_run :
    MarketplaceDb → ℕ → ℕ → RunStatus → String → String → ℕ → Result StoreError MarketplaceDb
retry_run db now id status code message delay = if_time (now + delay * second) (
    append_run_event (update_run id (to_retry now status code message delay) db) id status
      (some message))

abbrev pub ended : ℕ → RunStatus → String → String → AmazonReportRun → AmazonReportRun
ended now status code message r = record r {
  status = status;
  failure_code = some code;
  failure_message = some message;
  completed_at = some now;
  locked_at = none;
}

unfoldable pub mark_run_terminal :
    MarketplaceDb → ℕ → ℕ → RunStatus → String → String → Result StoreError MarketplaceDb
mark_run_terminal db now id status code message =
    append_run_event (update_run id (ended now status code message) db) id status (some message)

-- CHECK (retry_after_seconds BETWEEN 0 AND 86400)
abbrev pub is_storable : Option ℤ → Bool
is_storable none = true
is_storable (some (pos n)) = leb n 86400
is_storable (some (negsuc n)) = false

unfoldable pub record_transport_observation :
    MarketplaceDb → StoredObservation → Result StoreError MarketplaceDb
record_transport_observation db o =
    if not (any (is_run o.run_id) db.runs)
    then err foreign_key_violation
    else if not (is_storable o.retry_after_seconds)
    then err check_violation
    else ok (record db { observations = o ∷ db.observations })
