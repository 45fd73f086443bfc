-- ===== src/Worker/Chain/Arms.antt =====
-- A step of the worker for a run is a chain of writes for that run.
use essentials_merchant.Base.{
  ◌+◌, ◌*◌, ℕ, String, Option, none, some, ◌≡◌, refl, Result, ok, err, ok_injective, subst,
  >>=-eq-ok,
}
use essentials_merchant.Marketplace.{
  MarketplaceDb, ClaimedReportRun, RunStatus, StoreError, Bytes, ParsedSnapshot,
}
use essentials_merchant.Marketplace.Runs.{
  second, append_run_event, set_run_request_created, mark_run_requesting, set_run_poll_pending,
  set_run_document_ready, request_created, requesting_since, poll_pending, document_ready,
}
use essentials_merchant.Marketplace.Documents.{
  archive_document, keep_document, archive_kept, mark_run_archived, mark_parse_failure,
  archived_raw,
}
use essentials_merchant.Marketplace.Snapshots.{store_snapshot, keep_snapshot, snapshot_stored}
use essentials_merchant.Marketplace.Steps.{
  wrote, marked, kept, measured, ordered, Steps, stay, also, one, Steps-trans,
}
use essentials_merchant.Worker.{
  Answer, AmazonReportDocument, AmazonReportStatus, AmazonClientError, rate_limited,
  expired_download_url, retryable, permanent, exponential_backoff, content_type_for,
}
use essentials_merchant.Worker.Failure.{Means, marks_requesting, marks_import}
use essentials_merchant.Worker.Gate.{Surroundings, refusal}
use essentials_merchant.Worker.Process.{
  last, seen_first, seen_second, fail_parse, parser_version_of, take_created, request_report,
  take_status, take_polled, poll, poll_report, archive, download_failed, take_downloaded,
  take_document, fetch, download_report, write_snapshot, take_stored, take_parsed, parse_loaded,
  parse, parse_archive, advance, obey, process_run,
}
use essentials_merchant.Worker.Chain.{
  timed-Steps, settle-Steps, write-Steps, retry_run-Steps, mark_run_terminal-Steps,
  mark_run_failure-Steps, record_observations-Steps, record_client_error-Steps,
}

module _ (means : Means) (now : ℕ) (run : ClaimedReportRun) where
  abbrev Chain : MarketplaceDb → MarketplaceDb → Type 0
  Chain = Steps run.id

  take_created-Steps :
      (db : MarketplaceDb) (answer : Answer String)
      → Chain db (take_created means db now run answer)
  unfolding take_created set_run_request_created
  take_created-Steps db (ok response) =
      Steps-trans (record_observations-Steps (seen_first means) run.id db response.observations) (
        write-Steps (last means) _ (request_created now response.value) RunStatus.polling
          (some "Amazon report request accepted") (λ r. (refl, refl)))
  take_created-Steps db (err e) =
      record_client_error-Steps (seen_first means) (last means) run.id db now RunStatus.requesting e

  request_report-Steps : (db : MarketplaceDb) → Chain db (request_report means db now run)
  unfolding request_report mark_run_requesting
  request_report-Steps db =
      Steps-trans
        (write-Steps (means.refusal marks_requesting) db (requesting_since now) RunStatus.requesting
          (some "Submitting createReport request") (λ r. (refl, refl)))
        (take_created-Steps _ _)

  take_status-Steps :
      (db : MarketplaceDb) (status : AmazonReportStatus)
      → Chain db (take_status means db now run status)
  unfolding take_status set_run_poll_pending set_run_document_ready
  take_status-Steps db AmazonReportStatus.in_progress =
      timed-Steps (last means) db (now + exponential_backoff run.poll_attempts 60 3600 * second)
        (poll_pending now (exponential_backoff run.poll_attempts 60 3600)) RunStatus.polling
        (some "Amazon report is still processing") (λ r. (refl, refl))
  take_status-Steps db (AmazonReportStatus.done document_id) =
      write-Steps (last means) db (document_ready now document_id) RunStatus.downloading
        (some "Amazon report document is ready") (λ r. (refl, refl))
  take_status-Steps db AmazonReportStatus.cancelled =
      mark_run_terminal-Steps (last means) db now _ _ _
  take_status-Steps db (AmazonReportStatus.fatal message) =
      mark_run_terminal-Steps (last means) db now _ _ _

  take_polled-Steps :
      (db : MarketplaceDb) (answer : Answer AmazonReportStatus)
      → Chain db (take_polled means db now run answer)
  unfolding take_polled
  take_polled-Steps db (ok response) =
      Steps-trans (record_observations-Steps (seen_first means) run.id db response.observations)
        (take_status-Steps _ response.value)
  take_polled-Steps db (err e) =
      record_client_error-Steps (seen_first means) (last means) run.id db now RunStatus.polling e

  poll-Steps : (db : MarketplaceDb) (id : Option String) → Chain db (poll means db now run id)
  unfolding poll
  poll-Steps db none = mark_run_terminal-Steps (last means) db now _ _ _
  poll-Steps db (some report_id) = take_polled-Steps db _

  archive_document-Steps :
      (sha256 : Bytes → String) (db db' : MarketplaceDb) (document_id : String)
      (content_type compression : Option String) (raw decoded : Bytes)
      → archive_document sha256 db now run.id document_id content_type compression raw decoded
        ≡ ok db'
      → Chain db db'
  unfolding archive_document
  archive_document-Steps sha256 db db' document_id content_type compression raw decoded e =
      let (held, put, written) = >>=-eq-ok (keep_document db _) _ e in
      also (kept _ put)
        (one (wrote (archive_kept now) RunStatus.parsing _ (λ r. (refl, refl)) written))

  archive-Steps :
      (db : MarketplaceDb) (d : AmazonReportDocument) (downloaded : Bytes)
      (content : Result String Bytes)
      → Chain db (archive means db now run d downloaded content)
  unfolding archive
  archive-Steps db d downloaded (ok content) =
      settle-Steps (last means) db
        (archive_document means.sha256 db now run.id d.document_id
          (some (content_type_for run.order.report_type)) d.compression_algorithm downloaded
          content)
        (λ db'. archive_document-Steps means.sha256 db db' _ _ _ downloaded content)
  archive-Steps db d downloaded (err message) =
      mark_run_failure-Steps (last means) db now _ message none

  download_failed-Steps :
      (db : MarketplaceDb) (e : AmazonClientError) → Chain db (download_failed means db now run e)
  download_failed-Steps db expired_download_url = retry_run-Steps (last means) db now _ _ _ _
  download_failed-Steps db (rate_limited retry_after o) =
      record_client_error-Steps (seen_second means) (last means) run.id db now _ _
  download_failed-Steps db (retryable message) =
      record_client_error-Steps (seen_second means) (last means) run.id db now _ _
  download_failed-Steps db (permanent message) =
      record_client_error-Steps (seen_second means) (last means) run.id db now _ _

  take_downloaded-Steps :
      (db : MarketplaceDb) (d : AmazonReportDocument) (answer : Answer Bytes)
      → Chain db (take_downloaded means db now run d answer)
  unfolding take_downloaded
  take_downloaded-Steps db d (ok response) =
      Steps-trans (record_observations-Steps (seen_second means) run.id db response.observations)
        (archive-Steps _ d response.value _)
  take_downloaded-Steps db d (err e) = download_failed-Steps db e

  take_document-Steps :
      (db : MarketplaceDb) (answer : Answer AmazonReportDocument)
      → Chain db (take_document means db now run answer)
  unfolding take_document
  take_document-Steps db (ok response) =
      Steps-trans (record_observations-Steps (seen_first means) run.id db response.observations)
        (take_downloaded-Steps _ response.value _)
  take_document-Steps db (err e) =
      record_client_error-Steps (seen_first means) (last means) run.id db now RunStatus.downloading
        e

  fetch-Steps : (db : MarketplaceDb) (id : Option String) → Chain db (fetch means db now run id)
  unfolding fetch
  fetch-Steps db none = mark_run_terminal-Steps (last means) db now _ _ _
  fetch-Steps db (some document_id) = take_document-Steps db _

  store_snapshot-Steps :
      (db db' : MarketplaceDb) (new_id job_id : ℕ) (parsed : ParsedSnapshot)
      → store_snapshot db now new_id job_id run parsed ≡ ok db'
      → Chain db db'
  unfolding store_snapshot
  store_snapshot-Steps db db' new_id job_id parsed e =
      let (held, put, rest) = >>=-eq-ok (keep_snapshot db _ parsed.metrics) _ e in
      let (logged, written, end) =
        >>=-eq-ok (append_run_event _ run.id RunStatus.analysing _) _ rest in
      also (measured _ _ put) (
        also (marked _ _ _) (
          also (wrote (snapshot_stored now) RunStatus.analysing _ (λ r. (refl, refl)) written)
            (subst (Steps run.id logged) (ok_injective end) (one (ordered now job_id run)))))

  take_stored-Steps :
      (db : MarketplaceDb) (r : Result StoreError MarketplaceDb)
      → ((db' : MarketplaceDb) → r ≡ ok db' → Chain db db')
      → Chain db (take_stored means db now run r)
  unfolding take_stored
  take_stored-Steps db (ok db') chain = chain db' refl
  take_stored-Steps db (err e) chain = retry_run-Steps (last means) db now _ _ _ _

  write_snapshot-Steps :
      (db db' : MarketplaceDb) (outage : Option StoreError) (parsed : ParsedSnapshot)
      → write_snapshot means outage db now run parsed ≡ ok db'
      → Chain db db'
  write_snapshot-Steps db db' none parsed e =
      store_snapshot-Steps db db' means.snapshot_id means.job_id parsed e
  write_snapshot-Steps db db' (some refused) parsed e = cc

  mark_run_archived-Steps :
      (db db' : MarketplaceDb) (version : Option String) (message : String)
      → mark_run_archived db now run.id version message ≡ ok db'
      → Chain db db'
  unfolding mark_run_archived
  mark_run_archived-Steps db db' version message e =
      also (marked _ _ _)
        (one (wrote (archived_raw now) RunStatus.archived _ (λ r. (refl, refl)) e))

  fail_parse-Steps :
      (db : MarketplaceDb) (refused : Option StoreError) (message : String)
      → Chain db (
          fail_parse means refused db (
            mark_parse_failure db now run.id
              (parser_version_of means run.order.report_type)
              message))
  unfolding mark_parse_failure
  fail_parse-Steps db (some e) message = stay
  fail_parse-Steps db none message =
      also (marked _ _ _) (mark_run_failure-Steps (last means) _ now _ message none)

  take_parsed-Steps :
      (db : MarketplaceDb) (parsed : Result String (Option ParsedSnapshot))
      → Chain db (take_parsed means db now run parsed)
  unfolding take_parsed mark_parse_failure
  take_parsed-Steps db (ok (some parsed)) =
      take_stored-Steps db (write_snapshot means means.snapshot_outage db now run parsed)
        (λ db'. write_snapshot-Steps db db' means.snapshot_outage parsed)
  take_parsed-Steps db (ok none) =
      settle-Steps (last means) db
        (mark_run_archived db now run.id none
          "No parser is registered for this report type; raw document retained")
        (λ db'. mark_run_archived-Steps db db' none _)
  take_parsed-Steps db (err message) = fail_parse-Steps db (means.refusal marks_import) message

  parse_loaded-Steps :
      (db : MarketplaceDb) (document : Option (String × Bytes))
      → Chain db (parse_loaded means db now run document)
  unfolding parse_loaded
  parse_loaded-Steps db none = mark_run_terminal-Steps (last means) db now _ _ _
  parse_loaded-Steps db (some (document_id, content)) = take_parsed-Steps db _

  parse-Steps :
      (db : MarketplaceDb) (outage : Option StoreError) → Chain db (parse means db now run outage)
  unfolding parse
  parse-Steps db none = parse_loaded-Steps db _
  parse-Steps db (some e) = retry_run-Steps (last means) db now _ _ _ _

  pub advance-Steps :
      (db : MarketplaceDb) (status : RunStatus) → Chain db (advance means db now run status)
  unfolding advance poll_report download_report parse_archive
  advance-Steps db RunStatus.queued = request_report-Steps db
  advance-Steps db RunStatus.requesting = request_report-Steps db
  advance-Steps db RunStatus.polling = poll-Steps db _
  advance-Steps db RunStatus.downloading = fetch-Steps db _
  advance-Steps db RunStatus.parsing = parse-Steps db _
  advance-Steps db RunStatus.analysing = stay
  advance-Steps db RunStatus.succeeded = stay
  advance-Steps db RunStatus.archived = stay
  advance-Steps db RunStatus.cancelled = stay
  advance-Steps db RunStatus.fatal = stay
  advance-Steps db RunStatus.failed = stay

  obey-Steps :
      (db : MarketplaceDb) (refused : Option (String × String))
      → Chain db (obey means db now run refused)
  obey-Steps db (some (code, message)) = mark_run_terminal-Steps (last means) db now _ _ _
  obey-Steps db none = advance-Steps db run.status

pub process_run-Steps :
    (means : Means) (s : Surroundings) (db : MarketplaceDb) (now : ℕ) (run : ClaimedReportRun)
    → Steps run.id db (process_run means s db now run)
unfolding process_run
process_run-Steps means s db now run = obey-Steps means now run db (refusal s db now run)
