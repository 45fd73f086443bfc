-- ===== src/Worker/Process.antt =====
-- `process_run`: one step of the worker for a claimed run. `now` is the clock of the database.
use Prim.Native.String.{◌++◌ as append_text}
use essentials_merchant.Base.{ℕ, String, Option, none, some, Result, ok, err}
use essentials_merchant.Marketplace.{
  MarketplaceDb, ClaimedReportRun, RunStatus, StoreError, Bytes, ParsedSnapshot,
}
use essentials_merchant.Marketplace.Definitions.{report_definition}
use essentials_merchant.Marketplace.Runs.{
  set_run_request_created, mark_run_requesting, set_run_poll_pending, set_run_document_ready,
  mark_run_failure, retry_run, mark_run_terminal,
}
use essentials_merchant.Marketplace.Documents.{
  archive_document, load_document_for_parsing, mark_run_archived, mark_parse_failure,
}
use essentials_merchant.Marketplace.Snapshots.{store_snapshot}
use essentials_merchant.Worker.{
  Answer, AmazonReportRequest, AmazonReportDocument, AmazonReportStatus, AmazonClientError,
  expired_download_url, exponential_backoff, content_type_for, decompress, parse_report,
}
use essentials_merchant.Worker.Failure.{
  Means, marks_requesting, marks_import, ends_step, observes, observes_download, settle,
  record_observations, record_client_error, fail_run,
}
use essentials_merchant.Worker.Gate.{Surroundings, refusal}

abbrev pub request_of : ClaimedReportRun → AmazonReportRequest
request_of run = record {
  seller_id = run.seller_id;
  region = run.region;
  secret_ref = run.secret_ref;
  mode = run.mode;
  report_type = run.order.report_type;
  marketplace_id = run.order.marketplace_id;
  data_start_time = run.order.data_start_time;
  data_end_time = run.order.data_end_time;
  report_options = run.order.report_options;
}

module _ (means : Means) where
  abbrev pub last : Option StoreError
  last = means.refusal ends_step

  abbrev pub seen_first : ℕ → Option StoreError
  seen_first n = means.refusal (observes n)

  abbrev pub seen_second : ℕ → Option StoreError
  seen_second n = means.refusal (observes_download n)

  -- The mark of the import stands before the failure of the run, which its error prevents.
  abbrev pub fail_parse :
      Option StoreError
      → MarketplaceDb
      → MarketplaceDb × Result StoreError MarketplaceDb
      → MarketplaceDb
  fail_parse (some e) db (marked, result) = db
  fail_parse none db (marked, result) = settle last marked result

  unfoldable pub take_created : MarketplaceDb → ℕ → ClaimedReportRun → Answer String → MarketplaceDb
  take_created db now run (ok response) =
      let seen = record_observations seen_first db run.id response.observations in
      settle last seen (set_run_request_created seen now run.id response.value)
  take_created db now run (err e) =
      record_client_error seen_first last db now run.id RunStatus.requesting e

  -- The arm for `queued` and `requesting`.
  unfoldable pub request_report : MarketplaceDb → ℕ → ClaimedReportRun → MarketplaceDb
  unfolding take_created
  request_report db now run =
      take_created (settle (means.refusal marks_requesting) db (mark_run_requesting db now run.id))
        now run (means.client.create_report (request_of run))

  unfoldable pub take_status :
      MarketplaceDb → ℕ → ClaimedReportRun → AmazonReportStatus → MarketplaceDb
  take_status db now run AmazonReportStatus.in_progress = settle last db (
      set_run_poll_pending db now run.id (exponential_backoff run.poll_attempts 60 3600)
        "Amazon report is still processing")
  take_status db now run (AmazonReportStatus.done document_id) =
      settle last db (set_run_document_ready db now run.id document_id)
  take_status db now run AmazonReportStatus.cancelled = settle last db (
      mark_run_terminal db now run.id RunStatus.cancelled "cancelled"
        "Amazon cancelled the report or returned no data")
  take_status db now run (AmazonReportStatus.fatal message) =
      settle last db (mark_run_terminal db now run.id RunStatus.fatal "fatal" message)

  unfoldable pub take_polled :
      MarketplaceDb → ℕ → ClaimedReportRun → Answer AmazonReportStatus → MarketplaceDb
  unfolding take_status
  take_polled db now run (ok response) =
      take_status (record_observations seen_first db run.id response.observations) now run
        response.value
  take_polled db now run (err e) =
      record_client_error seen_first last db now run.id RunStatus.polling e

  unfoldable pub poll : MarketplaceDb → ℕ → ClaimedReportRun → Option String → MarketplaceDb
  unfolding take_polled
  poll db now run none =
      fail_run last db now run.id "missing_report_id" "Polling state lacks an Amazon report ID"
  poll db now run (some report_id) =
      take_polled db now run (means.client.get_report (request_of run) report_id)

  -- The arm for `polling`.
  unfoldable pub poll_report : MarketplaceDb → ℕ → ClaimedReportRun → MarketplaceDb
  unfolding poll
  poll_report db now run = poll db now run run.amazon_report_id

  unfoldable pub archive :
      MarketplaceDb
      → ℕ
      → ClaimedReportRun
      → AmazonReportDocument
      → Bytes
      → Result String Bytes
      → MarketplaceDb
  archive db now run d downloaded (ok content) = settle last db (
      archive_document means.sha256 db now run.id d.document_id
        (some (content_type_for run.order.report_type)) d.compression_algorithm downloaded content)
  archive db now run d downloaded (err message) =
      settle last db (mark_run_failure db now run.id "decompression_failed" message none)

  abbrev pub download_failed :
      MarketplaceDb → ℕ → ClaimedReportRun → AmazonClientError → MarketplaceDb
  download_failed db now run expired_download_url = settle last db (
      retry_run db now run.id RunStatus.downloading "download_url_expired"
        "Amazon download URL expired; requesting a fresh document URL"
        (exponential_backoff run.attempts 5 300))
  download_failed db now run e =
      record_client_error seen_second last db now run.id RunStatus.downloading e

  unfoldable pub take_downloaded :
      MarketplaceDb → ℕ → ClaimedReportRun → AmazonReportDocument → Answer Bytes → MarketplaceDb
  unfolding archive
  take_downloaded db now run d (ok response) =
      archive (record_observations seen_second db run.id response.observations) now run d
        response.value (decompress means.gunzip response.value d.compression_algorithm)
  take_downloaded db now run d (err e) = download_failed db now run e

  unfoldable pub take_document :
      MarketplaceDb → ℕ → ClaimedReportRun → Answer AmazonReportDocument → MarketplaceDb
  unfolding take_downloaded
  take_document db now run (ok response) =
      take_downloaded (record_observations seen_first db run.id response.observations) now run
        response.value (means.client.download_document response.value)
  take_document db now run (err e) =
      record_client_error seen_first last db now run.id RunStatus.downloading e

  unfoldable pub fetch : MarketplaceDb → ℕ → ClaimedReportRun → Option String → MarketplaceDb
  unfolding take_document
  fetch db now run none =
      fail_run last db now run.id "missing_document_id"
        "Download state lacks an Amazon report document ID"
  fetch db now run (some document_id) =
      take_document db now run (means.client.get_report_document (request_of run) document_id)

  -- The arm for `downloading`.
  unfoldable pub download_report : MarketplaceDb → ℕ → ClaimedReportRun → MarketplaceDb
  unfolding fetch
  download_report db now run = fetch db now run run.amazon_report_document_id

  abbrev pub retry_parsing : MarketplaceDb → ℕ → ClaimedReportRun → String → String → MarketplaceDb
  retry_parsing db now run code message = settle last db (
      retry_run db now run.id RunStatus.parsing code message
        (exponential_backoff run.attempts 5 300))

  -- `store_snapshot` with a database that may be out of reach.
  abbrev pub write_snapshot :
      Option StoreError
      → MarketplaceDb
      → ℕ
      → ClaimedReportRun
      → ParsedSnapshot
      → Result StoreError MarketplaceDb
  write_snapshot (some e) db now run parsed = err e
  write_snapshot none db now run parsed =
      store_snapshot db now means.snapshot_id means.job_id run parsed

  unfoldable pub take_stored :
      MarketplaceDb → ℕ → ClaimedReportRun → Result StoreError MarketplaceDb → MarketplaceDb
  take_stored db now run (ok db') = db'
  take_stored db now run (err e) =
      retry_parsing db now run "snapshot_store_failed"
        (append_text "Could not persist normalized snapshot: " (means.display e))

  abbrev pub parser_version_of : String → String
  parser_version_of report_type = elim (report_definition report_type) [
    | none ↦ "unknown-parser"
    | some d ↦ elim d.parser_version [ none ↦ "unknown-parser" | some version ↦ version ]
  ]

  unfoldable pub take_parsed :
      MarketplaceDb → ℕ → ClaimedReportRun → Result String (Option ParsedSnapshot) → MarketplaceDb
  unfolding take_stored
  take_parsed db now run (ok (some parsed)) =
      take_stored db now run (write_snapshot means.snapshot_outage db now run parsed)
  take_parsed db now run (ok none) = settle last db (
      mark_run_archived db now run.id none
        "No parser is registered for this report type; raw document retained")
  take_parsed db now run (err message) =
      fail_parse (means.refusal marks_import) db
        (mark_parse_failure db now run.id (parser_version_of run.order.report_type) message)

  unfoldable pub parse_loaded :
      MarketplaceDb → ℕ → ClaimedReportRun → Option (String × Bytes) → MarketplaceDb
  unfolding take_parsed
  parse_loaded db now run none =
      fail_run last db now run.id "raw_document_missing"
        "Cannot parse because the archived raw document is missing"
  parse_loaded db now run (some (document_id, content)) =
      take_parsed db now run (parse_report means.parsers run content)

  unfoldable pub parse : MarketplaceDb → ℕ → ClaimedReportRun → Option StoreError → MarketplaceDb
  unfolding parse_loaded
  parse db now run (some e) =
      retry_parsing db now run "database_error"
        (append_text "Could not read raw report archive: " (means.display e))
  parse db now run none = parse_loaded db now run (load_document_for_parsing db run.id)

  -- The arm for `parsing`.
  unfoldable pub parse_archive : MarketplaceDb → ℕ → ClaimedReportRun → MarketplaceDb
  unfolding parse
  parse_archive db now run = parse db now run means.archive_outage

  unfoldable pub advance : MarketplaceDb → ℕ → ClaimedReportRun → RunStatus → MarketplaceDb
  unfolding request_report poll_report download_report parse_archive
  advance db now run RunStatus.queued = request_report db now run
  advance db now run RunStatus.requesting = request_report db now run
  advance db now run RunStatus.polling = poll_report db now run
  advance db now run RunStatus.downloading = download_report db now run
  advance db now run RunStatus.parsing = parse_archive db now run
  advance db now run _ = db

  abbrev pub obey : MarketplaceDb → ℕ → ClaimedReportRun → Option (String × String) → MarketplaceDb
  obey db now run (some (code, message)) = fail_run last db now run.id code message
  obey db now run none = advance db now run run.status

  unfoldable pub process_run : Surroundings → MarketplaceDb → ℕ → ClaimedReportRun → MarketplaceDb
  process_run s db now run = obey db now run (refusal s db now run)
