-- ===== src/Worker/Cycle.antt =====
-- `MarketplaceWorker::cycle` and `process_analysis`. The rules that write an analysis are
-- parameters.
use essentials_merchant.Base.{
  ℕ, pos, ◌+◌, String, str_eq, Bool, true, false, not, ◌||◌, Option, none, List, [], ◌∷◌,
  if◌then◌else◌, Result, ok, err, ◌>>=◌,
}
use essentials_merchant.Catalogue.{Db, is_enabled}
use essentials_merchant.Marketplace.{MarketplaceDb, ClaimedReportRun, StoreError, AnalysisJob}
use essentials_merchant.Marketplace.Json.{Value, Members, text, boolean, object, no_members, member}
use essentials_merchant.Marketplace.Queue.{Formats}
use essentials_merchant.Marketplace.Claim.{claim_due_runs, enqueue_due_schedules}
use essentials_merchant.Marketplace.Analysis.{claim_analysis_jobs, complete_analysis, fail_analysis}
use essentials_merchant.Worker.Failure.{Means, settle}
use essentials_merchant.Worker.Gate.{Surroundings}
use essentials_merchant.Worker.Process.{process_run}

-- `deterministic_delta`, `deterministic_manual_comparison`, `deterministic_total`, the digest of
-- `pii_safe_analysis_export`, and the error of the write that ends a job.
pub record Rules : Type 0 where
  pub delta : MarketplaceDb → AnalysisJob → Result String Value
  pub manual_comparison : MarketplaceDb → AnalysisJob → Result String Value
  pub total : MarketplaceDb → AnalysisJob → Result String Value
  pub refusal : AnalysisJob → Option StoreError
  pub payload_sha256 : Value → String

abbrev pub ruleset_version : String
ruleset_version = "marketplace-rules-v2"

abbrev pub put_member : String → Value → Members → Members
put_member key v no_members = member key v no_members
put_member key v (member k w ms) =
    let rest = put_member key v ms in if str_eq k key then member k v ms else member k w rest

-- `result[key] = v` on an object.
abbrev pub with_member : String → Value → Value → Value
with_member key v (object ms) = object (put_member key v ms)
with_member key v other = other

abbrev pub engine : Value
engine = object (
    member "kind" (text "deterministic_rules") (
      member "ruleset_version" (text ruleset_version)
        (member "external_ai" (boolean false) no_members)))

unfoldable pub analyse : Rules → MarketplaceDb → AnalysisJob → Result String Value
analyse rules db job =
    if str_eq job.analysis_type "delta"
    then rules.delta db job
    else if str_eq job.analysis_type "manual_comparison"
    then rules.manual_comparison db job
    else if str_eq job.analysis_type "total"
    then rules.total db job
    else err "Unknown analysis type"

unfoldable pub process_analysis : Rules → MarketplaceDb → ℕ → AnalysisJob → MarketplaceDb
unfolding analyse
process_analysis rules db now job = elim (analyse rules db job) [
  | ok result ↦ settle (rules.refusal job) db (
      complete_analysis db now job "deterministic_rules" none ruleset_version
        (rules.payload_sha256 result) (with_member "analysis_engine" engine result))
  | err message ↦ settle (rules.refusal job) db (ok (fail_analysis db now job.id message))
]

-- The loop over the claimed runs; `means n` and `around n` are what the n-th of them meets.
unfoldable pub process_runs :
    (ℕ → Means) → (ℕ → Surroundings) → ℕ → ℕ → MarketplaceDb → List ClaimedReportRun → MarketplaceDb
process_runs means around now n db [] = db
process_runs means around now n db (run ∷ runs) =
    process_runs means around now (n + 1) (process_run (means n) (around n) db now run) runs

unfoldable pub process_jobs : Rules → ℕ → MarketplaceDb → List AnalysisJob → MarketplaceDb
process_jobs rules now db [] = db
process_jobs rules now db (job ∷ jobs) =
    process_jobs rules now (process_analysis rules db now job) jobs

-- Schedules stay where they are while the pilot is enabled.
abbrev pub enqueue_unless :
    Bool → Formats → (ℕ → ℕ) → MarketplaceDb → ℕ → (ℕ → Bool) → Result StoreError MarketplaceDb
enqueue_unless true formats fresh db now skipped = ok db
enqueue_unless false formats fresh db now skipped =
    enqueue_due_schedules formats fresh db now skipped (pos 25) >>= λ (count, db'). ok db'

-- The runs of a cycle: the claim and the loop over what it hands out.
unfoldable pub work_runs :
    (ℕ → Means) → (ℕ → Surroundings) → MarketplaceDb → ℕ → (ℕ → Bool) → MarketplaceDb
work_runs means around db now skipped =
    let (runs, taken) = claim_due_runs db now skipped (pos 10) in
    process_runs means around now 0 taken runs

abbrev pub work :
    (ℕ → Means) → (ℕ → Surroundings) → Rules → MarketplaceDb → ℕ → (ℕ → Bool) → MarketplaceDb
work means around rules db now skipped =
    let processed = work_runs means around db now skipped in
    let (jobs, db') = claim_analysis_jobs processed now skipped (pos 10) in
    process_jobs rules now db' jobs

unfoldable pub cycle :
    (ℕ → Means)
    → (ℕ → Surroundings)
    → Rules
    → Formats
    → (ℕ → ℕ)
    → Db
    → MarketplaceDb
    → ℕ
    → (ℕ → Bool)
    → Result StoreError MarketplaceDb
unfolding process_runs process_jobs work_runs
cycle means around rules formats fresh catalogue db now skipped =
    if not (is_enabled catalogue "marketplace_intelligence")
      || not (is_enabled catalogue "intelligence.rules")
    then ok db
    else (enqueue_unless (is_enabled catalogue "pilot_amazon_read_only") formats fresh db now
          skipped
        >>= λ queued. ok (work means around rules queued now skipped))
