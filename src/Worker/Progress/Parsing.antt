-- ===== src/Worker/Progress/Parsing.antt =====
-- The outcomes of the arm for `parsing`.
use essentials_merchant.Base.{
  arith, ℕ, String, Option, none, some, ◌≡◌, refl, subst, Result, ok, err, ok_injective, >>=-eq-ok,
}
use essentials_merchant.Marketplace.{
  MarketplaceDb, AmazonReportRun, ClaimedReportRun, RunStatus, StoreError, Bytes, ParsedSnapshot,
}
use essentials_merchant.Marketplace.Runs.{append_run_event}
use essentials_merchant.Marketplace.Documents.{
  mark_run_archived, mark_document_import, mark_parse_failure, archived_raw,
}
use essentials_merchant.Marketplace.Snapshots.{
  store_snapshot, keep_snapshot, enqueue_delta_analysis, snapshot_stored,
}
use essentials_merchant.Marketplace.Steps.{keep_snapshot-SameCore, enqueue_delta_analysis-SameCore}
use essentials_merchant.Worker.Failure.{Means, marks_import, ends_step}
use essentials_merchant.Worker.Process.{
  write_snapshot, take_stored, take_parsed, parse_loaded, parse,
}
use essentials_merchant.Worker.Progress.{At, SameCore-At, write-At}
use essentials_merchant.Worker.Progress.Outcome.{
  HourLeft, within_hour, backoff_fits, Lands, released, follows-failed, retry_run-Lands,
  mark_run_failure-Lands,
}
use essentials_merchant.Worker.Progress.Arms.{ClientFits, fail-Lands}

module _ (means : Means) (now : ℕ) (run : ClaimedReportRun) (r : AmazonReportRun) where
  pub store_snapshot-At :
      (db db' : MarketplaceDb) (new_id job_id : ℕ) (parsed : ParsedSnapshot)
      → At run.id r db
      → store_snapshot db now new_id job_id run parsed ≡ ok db'
      → At run.id (snapshot_stored now r) db'
  unfolding store_snapshot mark_document_import
  store_snapshot-At db db' new_id job_id parsed here e =
      let (held, put, rest) = >>=-eq-ok (keep_snapshot db _ parsed.metrics) _ e in
      let (logged, written, end) =
        >>=-eq-ok (append_run_event _ run.id RunStatus.analysing _) _ rest in
      let held_here =
        SameCore-At run.id r db held (keep_snapshot-SameCore db _ parsed.metrics put) here in
      let logged_here =
        write-At run.id r held (marked_at held) (snapshot_stored now) RunStatus.analysing
          (some "Normalized metric snapshot stored") refl (λ x. (refl, refl)) held_here in
      subst (At run.id (snapshot_stored now r)) (ok_injective end) (
        SameCore-At run.id (snapshot_stored now r) logged
          (enqueue_delta_analysis logged now job_id run)
          (enqueue_delta_analysis-SameCore logged now job_id run) (rw written at logged_here))
    where
      marked_at : MarketplaceDb → MarketplaceDb
      marked_at held = mark_document_import held run.id (some parsed.parser_version) "parsed" none

  write_snapshot-At :
      (db db' : MarketplaceDb) (outage : Option StoreError) (parsed : ParsedSnapshot)
      → At run.id r db
      → write_snapshot means outage db now run parsed ≡ ok db'
      → At run.id (snapshot_stored now r) db'
  write_snapshot-At db db' none parsed here e =
      store_snapshot-At db db' means.snapshot_id means.job_id parsed here e
  write_snapshot-At db db' (some refused) parsed here e = cc

module _ (means : Means) (now : ℕ) (run : ClaimedReportRun) (r : AmazonReportRun)
    (accepted : means.refusal ends_step ≡ none) (imports : means.refusal marks_import ≡ none)
    (hour : HourLeft now) (fits : ClientFits now means.client) where
  take_stored-Lands :
      (db : MarketplaceDb) (w : Result StoreError MarketplaceDb)
      → r.status ≡ RunStatus.parsing
      → At run.id r db
      → ((db' : MarketplaceDb) → w ≡ ok db' → At run.id (snapshot_stored now r) db')
      → Lands run.id r (take_stored means db now run w)
  unfolding take_stored
  take_stored-Lands db (ok db') start here there =
      (snapshot_stored now r, there db' refl, released (rw start refl) refl)
  take_stored-Lands db (err e) start here there =
      retry_run-Lands run.id r r db now here accepted RunStatus.parsing _ _ _
        (backoff_fits now run.attempts 5 300 hour (omega arith)) (rw start refl)

  take_parsed-Lands :
      (db : MarketplaceDb) (parsed : Result String (Option ParsedSnapshot))
      → r.status ≡ RunStatus.parsing
      → At run.id r db
      → Lands run.id r (take_parsed means db now run parsed)
  unfolding take_parsed mark_run_archived mark_parse_failure mark_document_import
  take_parsed-Lands db (ok (some parsed)) start here =
      take_stored-Lands db (write_snapshot means means.snapshot_outage db now run parsed) start here
        (λ db'. write_snapshot-At means now run r db db' means.snapshot_outage parsed here)
  take_parsed-Lands db (ok none) start here = (
    archived_raw now r,
    write-At run.id r db _ (archived_raw now) RunStatus.archived _ accepted (λ x. (refl, refl))
        here,
    released (rw start refl) refl,
  )
  take_parsed-Lands db (err message) start here = rw imports (
      mark_run_failure-Lands run.id r r _ now here accepted _ message
        (within_hour now 0 hour (omega arith)) (follows-failed r.status))

  parse_loaded-Lands :
      (db : MarketplaceDb) (document : Option (String × Bytes))
      → r.status ≡ RunStatus.parsing
      → At run.id r db
      → Lands run.id r (parse_loaded means db now run document)
  unfolding parse_loaded
  parse_loaded-Lands db none start here = fail-Lands means now run r accepted hour fits db _ _ here
  parse_loaded-Lands db (some (document_id, content)) start here = take_parsed-Lands db _ start here

  pub parse-Lands :
      (db : MarketplaceDb) (outage : Option StoreError)
      → r.status ≡ RunStatus.parsing
      → At run.id r db
      → Lands run.id r (parse means db now run outage)
  unfolding parse
  parse-Lands db none start here = parse_loaded-Lands db _ start here
  parse-Lands db (some e) start here =
      retry_run-Lands run.id r r db now here accepted RunStatus.parsing _ _ _
        (backoff_fits now run.attempts 5 300 hour (omega arith)) (rw start refl)
