-- ===== src/Marketplace/Analysis.antt =====
-- Analysis jobs: their creation, the claim, their end, and the snapshots that they compare.
use essentials_merchant.Base.{
  ℕ, ℤ, ◌+◌, String, str_eq, Bool, true, false, not, ◌&&◌, Option, none, some, List, ◌∷◌, map,
  if◌then◌else◌, ◌==◌, leb, ltb, any, select, update_where, take, clamp, sort_by, Result, ok, err,
}
use essentials_merchant.Marketplace.{
  MarketplaceDb, AmazonReportRun, RunStatus, StoreError, foreign_key_violation, AnalysisJob,
  JobStatus, AnalysisResult, MetricSnapshot, is_run,
}
use essentials_merchant.Marketplace.Json.{Value}
use essentials_merchant.Marketplace.Runs.{append_run_event}
use essentials_merchant.Marketplace.Queue.{is_connection, first}
use essentials_merchant.Marketplace.Claim.{lease_expired}

abbrev pub is_job : ℕ → AnalysisJob → Bool
is_job id j = j.id == id

abbrev pub total_job : ℕ → ℕ → ℕ → String → String → ℕ → ℕ → AnalysisJob
total_job now new_id connection_id marketplace_id report_type start end = record {
  id = new_id;
  run_id = none;
  connection_id = connection_id;
  marketplace_id = marketplace_id;
  report_type = some report_type;
  analysis_type = "total";
  period_start = some start;
  period_end = some end;
  status = JobStatus.queued;
  attempts = 0;
  next_attempt_at = now;
  locked_at = none;
  error_message = none;
  created_at = now;
  completed_at = none;
}

unfoldable pub create_total_analysis :
    MarketplaceDb
    → ℕ
    → ℕ
    → ℕ
    → String
    → String
    → ℕ
    → ℕ
    → Result StoreError (AnalysisJob × MarketplaceDb)
create_total_analysis db now new_id connection_id marketplace_id report_type start end =
    let job = total_job now new_id connection_id marketplace_id report_type start end in
    if any (is_connection connection_id) db.connections
    then ok (job, record db { jobs = job ∷ db.jobs })
    else err foreign_key_violation

abbrev pub is_job_queued : JobStatus → Bool
is_job_queued JobStatus.queued = true
is_job_queued _ = false

abbrev pub is_job_processing : JobStatus → Bool
is_job_processing JobStatus.processing = true
is_job_processing _ = false

abbrev pub is_job_lapsed : ℕ → AnalysisJob → Bool
is_job_lapsed now j = is_job_processing j.status && lease_expired now j.locked_at

abbrev pub job_released : ℕ → AnalysisJob → AnalysisJob
job_released now j = record j { status = JobStatus.queued; locked_at = none; next_attempt_at = now }

abbrev pub is_job_due : ℕ → (ℕ → Bool) → AnalysisJob → Bool
is_job_due now skipped j = is_job_queued j.status && leb j.next_attempt_at now && not (skipped j.id)

abbrev pub older : AnalysisJob → AnalysisJob → Bool
older a b = leb a.created_at b.created_at

abbrev pub job_claimed : ℕ → AnalysisJob → AnalysisJob
job_claimed now j = record j {
  status = JobStatus.processing;
  locked_at = some now;
  attempts = j.attempts + 1;
}

abbrev pub is_job_among : List AnalysisJob → AnalysisJob → Bool
is_job_among chosen j = any (is_job j.id) chosen

unfoldable pub claim_analysis_jobs :
    MarketplaceDb → ℕ → (ℕ → Bool) → ℤ → List AnalysisJob × MarketplaceDb
claim_analysis_jobs db now skipped limit =
    let free = update_where (is_job_lapsed now) (job_released now) db.jobs in
    let chosen = take (clamp 1 25 limit) (sort_by older (select (is_job_due now skipped) free)) in
    (
      map (job_claimed now) chosen,
      record db { jobs = update_where (is_job_among chosen) (job_claimed now) free },
    )

abbrev pub is_result_of : ℕ → AnalysisResult → Bool
is_result_of id r = r.job_id == id

abbrev pub job_completed : ℕ → AnalysisJob → AnalysisJob
job_completed now j = record j {
  status = JobStatus.completed;
  locked_at = none;
  completed_at = some now;
  error_message = none;
}

abbrev pub is_analysing : RunStatus → Bool
is_analysing RunStatus.analysing = true
is_analysing _ = false

abbrev pub succeeded_at : ℕ → AmazonReportRun → AmazonReportRun
succeeded_at now r = record r {
  status = RunStatus.succeeded;
  completed_at = some now;
  locked_at = none;
}

-- INSERT … ON CONFLICT (job_id) DO NOTHING
abbrev pub keep_result : AnalysisResult → List AnalysisResult → List AnalysisResult
keep_result new rs = if any (is_result_of new.job_id) rs then rs else new ∷ rs

-- UPDATE … WHERE id = $1 AND status = 'analysing', and a log entry whatever that found.
abbrev pub succeed_run : MarketplaceDb → ℕ → ℕ → Result StoreError MarketplaceDb
succeed_run db now id =
    append_run_event
      (record db {
        runs = update_where (λ r. is_run id r && is_analysing r.status) (succeeded_at now) db.runs;
      })
      id RunStatus.succeeded (some "Deterministic analysis completed")

unfoldable pub complete_analysis :
    MarketplaceDb
    → ℕ
    → AnalysisJob
    → String
    → Option String
    → String
    → String
    → Value
    → Result StoreError MarketplaceDb
complete_analysis db now job strategy model_name prompt_version payload_hash result =
    let new : AnalysisResult = record {
      job_id = job.id;
      strategy = strategy;
      model_name = model_name;
      prompt_version = prompt_version;
      payload_sha256 = payload_hash;
      result = result;
    } in
    let done : MarketplaceDb = record db {
      results = keep_result new db.results;
      jobs = update_where (is_job job.id) (job_completed now) db.jobs;
    } in
    if any (is_job job.id) db.jobs
    then elim job.run_id [ none ↦ ok done | some run_id ↦ succeed_run done now run_id ]
    else err foreign_key_violation

abbrev pub job_failed : ℕ → String → AnalysisJob → AnalysisJob
job_failed now message j = record j {
  status = JobStatus.failed;
  locked_at = none;
  error_message = some message;
  completed_at = some now;
}

unfoldable pub fail_analysis : MarketplaceDb → ℕ → ℕ → String → MarketplaceDb
fail_analysis db now id message = record db {
  jobs = update_where (is_job id) (job_failed now message) db.jobs;
}

-- a < b on columns that may be NULL.
abbrev pub is_earlier : Option ℕ → Option ℕ → Bool
is_earlier (some a) (some b) = ltb a b
is_earlier _ _ = false

abbrev pub is_compatible : MetricSnapshot → MetricSnapshot → Bool
is_compatible s p =
    p.connection_id == s.connection_id
    && str_eq p.marketplace_id s.marketplace_id
    && str_eq p.report_type s.report_type
    && str_eq p.comparability_key s.comparability_key
    && str_eq p.parser_version s.parser_version
    && not (p.id == s.id)
    && is_earlier p.period_end s.period_start

-- DESC, where NULL stands first.
abbrev pub at_or_after : Option ℕ → Option ℕ → Bool
at_or_after none b = true
at_or_after (some a) none = false
at_or_after (some a) (some b) = leb b a

abbrev pub same_instant : Option ℕ → Option ℕ → Bool
same_instant a b = at_or_after a b && at_or_after b a

-- ORDER BY period_end DESC, period_start DESC, created_at DESC
abbrev pub latest_first : MetricSnapshot → MetricSnapshot → Bool
latest_first a b =
    if same_instant a.period_end b.period_end
    then if same_instant a.period_start b.period_start
      then leb b.created_at a.created_at
      else at_or_after a.period_start b.period_start
    else at_or_after a.period_end b.period_end

unfoldable pub previous_compatible_snapshot : MarketplaceDb → MetricSnapshot → Option MetricSnapshot
previous_compatible_snapshot db s =
    first (sort_by latest_first (select (is_compatible s) db.snapshots))
