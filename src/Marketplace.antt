-- ===== src/Marketplace.antt =====
-- The marketplace store, backend/crates/db/src/marketplace.rs: connections to Amazon, schedules,
-- report runs with their log of events and archived documents, metric snapshots and analysis jobs.
-- Ids are numbers and times are in microseconds; an id that the database draws is an argument. The
-- columns `updated_at`, which every write sets and no operation reads, are left out; a decimal stands
-- for its digits.
pub mod Json
pub mod Definitions
pub mod Connections
pub mod Runs
pub mod Documents
pub mod Snapshots
pub mod Queue
pub mod Claim
pub mod Analysis
pub mod Steps
pub mod Log
pub mod Archive
pub mod Isolation
pub mod Samples
mod Tests
use essentials_merchant.Base.{ℕ, ℤ, String, Bool, true, false, Option, List, ◌==◌}
use Json.{Value}

pub record AmazonConnection : Type 0 where
  pub id : ℕ
  pub seller_id : String
  pub region : String
  pub secret_ref : String
  pub granted_roles : List String
  pub mode : String
  pub enabled : Bool
  pub created_at : ℕ

-- A row of `amazon_marketplaces`.
pub record AmazonMarketplace : Type 0 where
  pub connection_id : ℕ
  pub marketplace_id : String
  pub enabled : Bool

pub record AmazonReportSchedule : Type 0 where
  pub id : ℕ
  pub connection_id : ℕ
  pub marketplace_id : String
  pub report_type : String
  pub report_options : Value
  pub interval_seconds : ℕ
  pub enabled : Bool
  pub next_run_at : ℕ
  pub last_enqueued_at : Option ℕ
  pub created_at : ℕ

pub data RunStatus : Type 0 where
  queued requesting polling downloading parsing analysing : RunStatus
  succeeded archived cancelled fatal failed : RunStatus

-- The columns of a run that say what it asks for; none of them changes after the insertion.
pub record Order : Type 0 where
  pub connection_id : ℕ
  pub schedule_id : Option ℕ
  pub marketplace_id : String
  pub report_type : String
  pub data_start_time : Option ℕ
  pub data_end_time : Option ℕ
  pub report_options : Value
  pub trigger_source : String
  pub idempotency_key : String

pub record AmazonReportRun : Type 0 where
  pub id : ℕ
  pub order : Order
  pub status : RunStatus
  pub attempts : ℕ
  pub poll_attempts : ℕ
  pub next_attempt_at : ℕ
  pub locked_at : Option ℕ
  pub amazon_report_id : Option String
  pub amazon_report_document_id : Option String
  pub failure_code : Option String
  pub failure_message : Option String
  pub requested_at : Option ℕ
  pub completed_at : Option ℕ
  pub created_at : ℕ

-- A run as `claim_due_runs` hands it out, with the columns of its connection.
pub record ClaimedReportRun : Type 0 where
  pub id : ℕ
  pub order : Order
  pub status : RunStatus
  pub attempts : ℕ
  pub poll_attempts : ℕ
  pub amazon_report_id : Option String
  pub amazon_report_document_id : Option String
  pub seller_id : String
  pub region : String
  pub secret_ref : String
  pub granted_roles : List String
  pub mode : String

-- A row of `amazon_report_run_events`.
pub record AmazonRunEvent : Type 0 where
  pub run_id : ℕ
  pub status : RunStatus
  pub message : Option String

abbrev pub Bytes : Type 0
Bytes = List ℕ

-- A row of `amazon_report_documents`, which has one at most for a run.
pub record ArchivedDocument : Type 0 where
  pub run_id : ℕ
  pub amazon_report_document_id : String
  pub sha256 : String
  pub content_type : Option String
  pub compression_algorithm : Option String
  pub raw_content : Bytes
  pub decoded_content : Bytes
  pub decoded_sha256 : String
  pub parser_version : Option String
  pub import_status : String
  pub import_error : Option String

pub record ParsedMetric : Type 0 where
  pub metric_name : String
  pub dimension_type : String
  pub dimension_key : String
  pub value_numeric : String
  pub unit : String
  pub currency_code : Option String
  pub evidence : Value

pub record ParsedSnapshot : Type 0 where
  pub parser_version : String
  pub period_start : Option ℕ
  pub period_end : Option ℕ
  pub granularity : String
  pub comparability_key : String
  pub summary : Value
  pub metrics : List ParsedMetric

pub record MetricSnapshot : Type 0 where
  pub id : ℕ
  pub run_id : ℕ
  pub connection_id : ℕ
  pub marketplace_id : String
  pub report_type : String
  pub parser_version : String
  pub period_start : Option ℕ
  pub period_end : Option ℕ
  pub granularity : String
  pub comparability_key : String
  pub summary : Value
  pub created_at : ℕ

-- A row of `amazon_normalized_metrics`.
pub record NormalizedMetric : Type 0 where
  pub snapshot_id : ℕ
  pub metric : ParsedMetric

pub data JobStatus : Type 0 where
  queued processing completed failed : JobStatus

pub record AnalysisJob : Type 0 where
  pub id : ℕ
  pub run_id : Option ℕ
  pub connection_id : ℕ
  pub marketplace_id : String
  pub report_type : Option String
  pub analysis_type : String
  pub period_start : Option ℕ
  pub period_end : Option ℕ
  pub status : JobStatus
  pub attempts : ℕ
  pub next_attempt_at : ℕ
  pub locked_at : Option ℕ
  pub error_message : Option String
  pub created_at : ℕ
  pub completed_at : Option ℕ

pub record AnalysisResult : Type 0 where
  pub job_id : ℕ
  pub strategy : String
  pub model_name : Option String
  pub prompt_version : String
  pub payload_sha256 : String
  pub result : Value

-- A row of `amazon_transport_observations`.
pub record StoredObservation : Type 0 where
  pub run_id : ℕ
  pub operation : String
  pub request_id_redacted : Option String
  pub rate_limit_limit : Option String
  pub retry_after_seconds : Option ℤ

-- The newest entry of the log stands first.
pub record MarketplaceDb : Type 0 where
  pub connections : List AmazonConnection
  pub marketplaces : List AmazonMarketplace
  pub schedules : List AmazonReportSchedule
  pub runs : List AmazonReportRun
  pub log : List AmazonRunEvent
  pub documents : List ArchivedDocument
  pub snapshots : List MetricSnapshot
  pub metrics : List NormalizedMetric
  pub jobs : List AnalysisJob
  pub results : List AnalysisResult
  pub observations : List StoredObservation

pub data StoreError : Type 0 where
  protocol : String → StoreError
  foreign_key_violation unique_violation check_violation datetime_overflow unavailable : StoreError

abbrev pub is_open : RunStatus → Bool
is_open RunStatus.queued = true
is_open RunStatus.requesting = true
is_open RunStatus.polling = true
is_open RunStatus.downloading = true
is_open RunStatus.parsing = true
is_open RunStatus.analysing = true
is_open _ = false

abbrev pub is_run : ℕ → AmazonReportRun → Bool
is_run id r = r.id == id
