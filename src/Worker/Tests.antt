-- ===== src/Worker/Tests.antt =====
-- Steps of the worker on the sample database, with a client that answers at once.
use essentials_merchant.Base.{
  ℕ, ◌≡◌, refl, Bool, true, false, String, Option, none, some, List, [], ◌∷◌, Result, ok, err,
}
use essentials_merchant.Marketplace.{
  ParsedSnapshot, MarketplaceDb, ClaimedReportRun, RunStatus, StoreError, Bytes,
}
use essentials_merchant.Marketplace.Log.{IsLogged}
use essentials_merchant.Marketplace.Archive.{Holds}
use essentials_merchant.Marketplace.Documents.{document_of}
use essentials_merchant.Marketplace.Isolation.{SameRun, run_of}
use essentials_merchant.Marketplace.Claim.{with_connection}
use essentials_merchant.Marketplace.Samples.{
  sample_db, demo_connection, queued_run, polling_run, old_document,
}
use essentials_merchant.Worker.{
  AmazonReportsClient, AmazonReportStatus, AmazonReportDocument, Parsers, exponential_backoff,
  download_url_allowed, amazon_resource_id_allowed,
}
use essentials_merchant.Worker.Failure.{Means}
use essentials_merchant.Worker.Gate.{Surroundings, refusal}
use essentials_merchant.Marketplace.Json.{object, no_members}
use essentials_merchant.Worker.Process.{process_run}
use essentials_merchant.Worker.Cycle.{process_runs}
use essentials_merchant.Worker.Safety.{
  process_run-SameRun, process_runs-IsLogged, process_runs-Holds,
}

abbrev sample_document : AmazonReportDocument
sample_document = record {
  document_id = "document";
  url = "fixture://demo/report";
  compression_algorithm = none;
}

-- A client whose reports are ready at the first poll.
abbrev prompt_client : AmazonReportsClient
prompt_client = record {
  create_report = λ q. ok (record { value = "report"; observations = [] });
  get_report =
      λ q id. ok (record { value = AmazonReportStatus.done "document"; observations = [] });
  get_report_document = λ q id. ok (record { value = sample_document; observations = [] });
  download_document = λ d. ok (record { value = 5 ∷ 6 ∷ []; observations = [] });
}

abbrev sample_means : Means
sample_means = record {
  client = prompt_client;
  parsers = record {
    parse_sales_and_traffic = λ raw start end. err "not a sales report";
    parse_inventory_planning = λ raw. err "not an inventory report";
  };
  gunzip = λ raw. err "not compressed";
  sha256 = λ raw. "other";
  display = λ e. "refused";
  snapshot_id = 50;
  job_id = 60;
  refusal = λ w. none;
  archive_outage = none;
  snapshot_outage = none;
}

abbrev plain_surroundings : Surroundings
plain_surroundings = record {
  approval = none;
  secret = λ key. none;
  sha256 = λ s. s;
  to_string = λ n. "";
  pilot_enabled = some true;
  sequence_answers = true;
  context_is_approved = λ s. none;
}

abbrev work_7 : ClaimedReportRun
work_7 = with_connection queued_run demo_connection

abbrev work_9 : ClaimedReportRun
work_9 = with_connection polling_run demo_connection

abbrev status_after : ℕ → MarketplaceDb → Option RunStatus
status_after id db = elim (run_of id db) [ none ↦ none | some r ↦ some r.status ]

queued_to_polling :
    status_after 7 (process_run sample_means plain_surroundings sample_db 200 work_7)
    ≡ some RunStatus.polling
unfolding process_run essentials_merchant.Worker.Gate.refusal
    essentials_merchant.Marketplace.Connections.transport_mode_is_consistent
    essentials_merchant.Base.is_blank
    essentials_merchant.Marketplace.Definitions.report_type_is_allowed_for_connection
    essentials_merchant.Marketplace.Definitions.report_definition
    essentials_merchant.Marketplace.Definitions.report_definitions
    essentials_merchant.Marketplace.Definitions.report_options_are_supported
    essentials_merchant.Worker.Process.advance
    essentials_merchant.Marketplace.Runs.set_run_request_created
    essentials_merchant.Marketplace.Runs.append_run_event
    essentials_merchant.Worker.Failure.record_observations
    essentials_merchant.Marketplace.Runs.mark_run_requesting
queued_to_polling = refl

polling_to_downloading :
    status_after 9 (process_run sample_means plain_surroundings sample_db 200 work_9)
    ≡ some RunStatus.downloading
unfolding process_run essentials_merchant.Worker.Gate.refusal
    essentials_merchant.Marketplace.Connections.transport_mode_is_consistent
    essentials_merchant.Base.is_blank
    essentials_merchant.Marketplace.Definitions.report_type_is_allowed_for_connection
    essentials_merchant.Marketplace.Definitions.report_definition
    essentials_merchant.Marketplace.Definitions.report_definitions
    essentials_merchant.Marketplace.Definitions.report_options_are_supported
    essentials_merchant.Worker.Process.advance
    essentials_merchant.Marketplace.Runs.set_run_document_ready
    essentials_merchant.Marketplace.Runs.append_run_event
    essentials_merchant.Worker.Failure.record_observations
polling_to_downloading = refl

backoff_grows : exponential_backoff 3 60 3600 ≡ 480
unfolding exponential_backoff
backoff_grows = refl

backoff_stops : exponential_backoff 12 60 3600 ≡ 3600
unfolding exponential_backoff
backoff_stops = refl

foreign_host : download_url_allowed (some ("https", "amazonaws.com.evil.example")) ≡ false
unfolding download_url_allowed
foreign_host = refl

bucket_host : download_url_allowed (some ("https", "bucket.s3.amazonaws.com")) ≡ true
unfolding download_url_allowed
bucket_host = refl

slash_in_id : amazon_resource_id_allowed "report/../1" ≡ false
unfolding amazon_resource_id_allowed
slash_in_id = refl

sample-IsLogged : IsLogged sample_db
unfolding IsLogged
sample-IsLogged = ((_, refl, refl), ((_, refl, refl), tt))

sample-Holds : Holds 9 (1 ∷ 2 ∷ []) (1 ∷ 2 ∷ []) "digest" sample_db
unfolding Holds document_of
sample-Holds = (old_document, refl, (refl, refl, refl))

process_run-SameRun_example :
    SameRun 9 sample_db (process_run sample_means plain_surroundings sample_db 200 work_7)
process_run-SameRun_example =
    process_run-SameRun sample_means plain_surroundings sample_db 200 work_7 9 refl

process_runs-IsLogged_example : IsLogged (
    process_runs
      (λ n. sample_means)
      (λ n. plain_surroundings)
      200
      0
      sample_db
      (work_7 ∷ work_9 ∷ []))
process_runs-IsLogged_example =
    process_runs-IsLogged (λ n. sample_means) (λ n. plain_surroundings) 200 0 sample_db
      (work_7 ∷ work_9 ∷ []) sample-IsLogged

process_runs-Holds_example : Holds 9 (1 ∷ 2 ∷ []) (1 ∷ 2 ∷ []) "digest" (
    process_runs
      (λ n. sample_means)
      (λ n. plain_surroundings)
      200
      0
      sample_db
      (work_7 ∷ work_9 ∷ []))
process_runs-Holds_example =
    process_runs-Holds (λ n. sample_means) (λ n. plain_surroundings) 200 0 sample_db
      (work_7 ∷ work_9 ∷ []) 9 (1 ∷ 2 ∷ []) (1 ∷ 2 ∷ []) "digest" sample-Holds

abbrev sample_parsed : ParsedSnapshot
sample_parsed = record {
  parser_version = "inventory-planning-tsv-v1";
  period_start = none;
  period_end = none;
  granularity = "snapshot";
  comparability_key = "inventory";
  summary = object no_members;
  metrics = [];
}

abbrev parsing_means : Means
parsing_means = record sample_means {
  parsers = record {
    parse_sales_and_traffic = λ raw start end. err "not a sales report";
    parse_inventory_planning = λ raw. ok sample_parsed;
  };
}

abbrev lone_db : MarketplaceDb
lone_db = record sample_db {
  runs = queued_run ∷ record polling_run { status = RunStatus.succeeded } ∷ [];
}
