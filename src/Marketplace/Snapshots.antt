-- ===== src/Marketplace/Snapshots.antt =====
-- A parsed report becomes a metric snapshot with its metrics and a job for the comparison.
use essentials_merchant.Base.{
  ℕ, String, str_eq, Bool, false, ◌&&◌, ◌||◌, Option, none, some, List, [], ◌∷◌, ◌++◌, map,
  if◌then◌else◌, ◌==◌, any, Result, ok, err, ◌>>=◌,
}
use essentials_merchant.Marketplace.{
  MarketplaceDb, AmazonReportRun, ClaimedReportRun, RunStatus, StoreError, unique_violation,
  ParsedSnapshot, ParsedMetric, MetricSnapshot, AnalysisJob, JobStatus,
}
use essentials_merchant.Marketplace.Runs.{append_run_event, update_run}
use essentials_merchant.Marketplace.Documents.{mark_document_import}

abbrev pub or_else {ℓ} : {A : Type ℓ} → Option A → Option A → Option A
or_else none other = other
or_else (some a) other = some a

abbrev pub is_snapshot_of : ℕ → MetricSnapshot → Bool
is_snapshot_of id s = s.run_id == id

pub new_snapshot : ℕ → ℕ → ClaimedReportRun → ParsedSnapshot → MetricSnapshot
new_snapshot now new_id run parsed = record {
  id = new_id;
  run_id = run.id;
  connection_id = run.order.connection_id;
  marketplace_id = run.order.marketplace_id;
  report_type = run.order.report_type;
  parser_version = parsed.parser_version;
  period_start = or_else parsed.period_start run.order.data_start_time;
  period_end = or_else parsed.period_end run.order.data_end_time;
  granularity = parsed.granularity;
  comparability_key = parsed.comparability_key;
  summary = parsed.summary;
  created_at = now;
}

-- The columns of the UNIQUE constraint on the metrics of a snapshot; NULL differs from NULL.
abbrev pub same_currency : Option String → Option String → Bool
same_currency (some a) (some b) = str_eq a b
same_currency _ _ = false

abbrev pub clashes : ParsedMetric → ParsedMetric → Bool
clashes a b =
    str_eq a.metric_name b.metric_name
    && str_eq a.dimension_type b.dimension_type
    && str_eq a.dimension_key b.dimension_key
    && str_eq a.unit b.unit
    && same_currency a.currency_code b.currency_code

unfoldable pub has_clash : List ParsedMetric → Bool
has_clash [] = false
has_clash (m ∷ ms) = any (clashes m) ms || has_clash ms

-- INSERT … ON CONFLICT (run_id) DO NOTHING, with the metrics of a new snapshot.
unfoldable pub keep_snapshot :
    MarketplaceDb → MetricSnapshot → List ParsedMetric → Result StoreError MarketplaceDb
unfolding has_clash
keep_snapshot db new metrics =
    if any (is_snapshot_of new.run_id) db.snapshots
    then ok db
    else if has_clash metrics
    then err unique_violation
    else ok (record db {
      snapshots = new ∷ db.snapshots;
      metrics = map (λ m. record { snapshot_id = new.id; metric = m }) metrics ++ db.metrics;
    })

abbrev pub is_delta_of : ℕ → AnalysisJob → Bool
is_delta_of id j = elim j.run_id [
  | none ↦ false
  | some run_id ↦ run_id == id && str_eq j.analysis_type "delta"
]

-- A run has one delta job at most.
unfoldable pub enqueue_delta_analysis : MarketplaceDb → ℕ → ℕ → ClaimedReportRun → MarketplaceDb
enqueue_delta_analysis db now new_id run =
    let job : AnalysisJob = record {
      id = new_id;
      run_id = some run.id;
      connection_id = run.order.connection_id;
      marketplace_id = run.order.marketplace_id;
      report_type = some run.order.report_type;
      analysis_type = "delta";
      period_start = run.order.data_start_time;
      period_end = run.order.data_end_time;
      status = JobStatus.queued;
      attempts = 0;
      next_attempt_at = now;
      locked_at = none;
      error_message = none;
      created_at = now;
      completed_at = none;
    } in
    if any (is_delta_of run.id) db.jobs then db else record db { jobs = job ∷ db.jobs }

abbrev pub snapshot_stored : ℕ → AmazonReportRun → AmazonReportRun
snapshot_stored now r = record r {
  status = RunStatus.analysing;
  next_attempt_at = now;
  locked_at = none;
}

-- `new_id` is drawn for the snapshot and `job_id` for the job.
unfoldable pub store_snapshot :
    MarketplaceDb → ℕ → ℕ → ℕ → ClaimedReportRun → ParsedSnapshot → Result StoreError MarketplaceDb
unfolding new_snapshot mark_document_import
store_snapshot db now new_id job_id run parsed = do
  kept ← keep_snapshot db (new_snapshot now new_id run parsed) parsed.metrics
  let marked = mark_document_import kept run.id (some parsed.parser_version) "parsed" none
  logged ←
      append_run_event (update_run run.id (snapshot_stored now) marked) run.id RunStatus.analysing
        (some "Normalized metric snapshot stored")
  ok (enqueue_delta_analysis logged now job_id run)
