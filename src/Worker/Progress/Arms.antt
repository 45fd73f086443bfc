-- ===== src/Worker/Progress/Arms.antt =====
-- The outcomes of the arms for `queued`, `requesting`, `polling` and `downloading`.
use essentials_merchant.Base.{
  ◌+◌, ◌*◌, arith, ℕ, String, true, Option, none, some, ◌≡◌, refl, subst, inl, inr, Result, ok, err,
  ◌>>=◌,
}
use essentials_merchant.Marketplace.{
  MarketplaceDb, AmazonReportRun, ClaimedReportRun, RunStatus, StoreError, Bytes, ArchivedDocument,
}
use essentials_merchant.Marketplace.Runs.{
  second, set_run_request_created, mark_run_requesting, set_run_poll_pending,
  set_run_document_ready, request_created, requesting_since, poll_pending, document_ready,
}
use essentials_merchant.Marketplace.Documents.{archive_document, keep_document, archive_kept}
use essentials_merchant.Marketplace.Steps.{keep_document-eq-ok}
use essentials_merchant.Worker.{
  AmazonReportsClient, AmazonReportRequest, Answer, AmazonReportDocument, AmazonReportStatus,
  AmazonClientError, rate_limited, expired_download_url, retryable, permanent, exponential_backoff,
}
use essentials_merchant.Worker.Failure.{marks_requesting, ends_step, Means, settle, fail_run}
use essentials_merchant.Worker.Process.{
  last, seen_first, seen_second, request_of, take_created, request_report, take_status, take_polled,
  poll, archive, download_failed, take_downloaded, take_document, fetch,
}
use essentials_merchant.Worker.Progress.{At, write-At, record_observations-At}
use essentials_merchant.Worker.Progress.Outcome.{
  timed-Lands, HourLeft, Fits, within_hour, backoff_fits, Lands, released, untouched, follows,
  follows-failed, write-Lands, retry_run-Lands, mark_run_terminal-Lands, mark_run_failure-Lands,
  record_client_error-Lands,
}

-- The delay of an answer that is an error fits.
abbrev pub AnswerFits : {A : Type 0} → ℕ → Answer A → Type 0
AnswerFits now answer = (e : AmazonClientError) → answer ≡ err e → Fits now e

-- The client asks for no delay that leads beyond the last timestamp.
abbrev pub ClientFits : ℕ → AmazonReportsClient → Type 0
ClientFits now client =
    ((q : AmazonReportRequest) → AnswerFits now (client.create_report q))
    × ((q : AmazonReportRequest) (id : String) → AnswerFits now (client.get_report q id))
    × ((q : AmazonReportRequest) (id : String) → AnswerFits now (client.get_report_document q id))
    × ((d : AmazonReportDocument) → AnswerFits now (client.download_document d))

-- The write that ends the step is not refused by an error of the database.
module _ (means : Means) (now : ℕ) (run : ClaimedReportRun) (r : AmazonReportRun)
    (accepted : means.refusal ends_step ≡ none) (hour : HourLeft now)
    (fits : ClientFits now means.client) where
  abbrev pub Landed : MarketplaceDb → Type 0
  Landed = Lands run.id r

  abbrev pub Starts : RunStatus → Type 0
  Starts s = r.status ≡ s

  pub fail-Lands :
      (db : MarketplaceDb) (code message : String)
      → At run.id r db
      → Landed (fail_run (last means) db now run.id code message)
  fail-Lands db code message here =
      mark_run_terminal-Lands run.id r r db now here accepted RunStatus.failed code message
        (follows-failed r.status)

  take_created-Lands :
      (db : MarketplaceDb) (q : AmazonReportRun) (answer : Answer String)
      → AnswerFits now answer
      → follows r.status RunStatus.requesting ≡ true
      → follows r.status RunStatus.polling ≡ true
      → follows r.status RunStatus.downloading ≡ true
      → At run.id q db
      → Landed (take_created means db now run answer)
  unfolding take_created set_run_request_created
  take_created-Lands db q (ok response) fit asks polls loads here =
      write-Lands run.id r q _ now
        (record_observations-At run.id q (seen_first means) response.observations db here) accepted
        (request_created now response.value) RunStatus.polling
        (some "Amazon report request accepted") (λ x. (refl, refl)) polls refl
  take_created-Lands db q (err e) fit asks polls loads here =
      record_client_error-Lands (seen_first means) accepted run.id r q db now hour here
        RunStatus.requesting e (fit e refl) asks loads

  pub request_report-Lands :
      (db : MarketplaceDb)
      → follows r.status RunStatus.requesting ≡ true
      → follows r.status RunStatus.polling ≡ true
      → follows r.status RunStatus.downloading ≡ true
      → At run.id r db
      → Landed (request_report means db now run)
  unfolding request_report mark_run_requesting
  request_report-Lands db asks polls loads here = request_at _ refl
    where
      request_at :
          (o : Option StoreError)
          → means.refusal marks_requesting ≡ o
          → Landed (request_report means db now run)
      request_at none free =
          take_created-Lands _ (requesting_since now r) _ (fits.0 (request_of run)) asks polls loads
            (write-At run.id r db db (requesting_since now) RunStatus.requesting
              (some "Submitting createReport request") free (λ x. (refl, refl)) here)
      request_at (some e) lost =
          rw lost (take_created-Lands db r _ (fits.0 (request_of run)) asks polls loads here)

  take_status-Lands :
      (db : MarketplaceDb) (status : AmazonReportStatus)
      → Starts RunStatus.polling
      → At run.id r db
      → Landed (take_status means db now run status)
  unfolding take_status set_run_poll_pending set_run_document_ready
  take_status-Lands db AmazonReportStatus.in_progress start here =
      timed-Lands run.id r r db now here accepted
        (now + exponential_backoff run.poll_attempts 60 3600 * second)
        (poll_pending now (exponential_backoff run.poll_attempts 60 3600)) RunStatus.polling
        (some "Amazon report is still processing")
        (backoff_fits now run.poll_attempts 60 3600 hour (omega arith)) (λ x. (refl, refl))
        (rw start refl) refl
  take_status-Lands db (AmazonReportStatus.done document_id) start here =
      write-Lands run.id r r db now here accepted (document_ready now document_id)
        RunStatus.downloading (some "Amazon report document is ready") (λ x. (refl, refl))
        (rw start refl) refl
  take_status-Lands db AmazonReportStatus.cancelled start here =
      mark_run_terminal-Lands run.id r r db now here accepted RunStatus.cancelled _ _
        (rw start refl)
  take_status-Lands db (AmazonReportStatus.fatal message) start here =
      mark_run_terminal-Lands run.id r r db now here accepted RunStatus.fatal _ _ (rw start refl)

  take_polled-Lands :
      (db : MarketplaceDb) (answer : Answer AmazonReportStatus)
      → AnswerFits now answer
      → Starts RunStatus.polling
      → At run.id r db
      → Landed (take_polled means db now run answer)
  unfolding take_polled
  take_polled-Lands db (ok response) fit start here =
      take_status-Lands _ response.value start
        (record_observations-At run.id r (seen_first means) response.observations db here)
  take_polled-Lands db (err e) fit start here =
      record_client_error-Lands (seen_first means) accepted run.id r r db now hour here
        RunStatus.polling e (fit e refl) (rw start refl) (rw start refl)

  pub poll-Lands :
      (db : MarketplaceDb) (id : Option String)
      → Starts RunStatus.polling
      → At run.id r db
      → Landed (poll means db now run id)
  unfolding poll
  poll-Lands db none start here = fail-Lands db _ _ here
  poll-Lands db (some report_id) start here =
      take_polled-Lands db _ (fits.1 (request_of run) report_id) start here

  chain-Lands :
      (base : MarketplaceDb) (first : Result StoreError MarketplaceDb)
      (next : MarketplaceDb → Result StoreError MarketplaceDb)
      → ((held : MarketplaceDb) → first ≡ ok held → Landed (settle (last means) base (next held)))
      → Landed base
      → Landed (settle (last means) base (first >>= next))
  chain-Lands base (ok held) next good bad = good held refl
  chain-Lands base (err e) next good bad = rw accepted bad

  keep_document-At :
      (db held : MarketplaceDb) (new : ArchivedDocument)
      → keep_document db new ≡ ok held
      → At run.id r db
      → At run.id r held
  keep_document-At db held new put here = elim (keep_document-eq-ok db new put) [
    | inl same ↦ subst (At run.id r) same here
    | inr (fresh, same) ↦ subst (At run.id r) same here
  ]

  -- The archive refuses other bytes, and the row is then as it was.
  archive_document-Lands :
      (sha256 : Bytes → String) (db : MarketplaceDb) (document_id : String)
      (content_type compression : Option String) (raw decoded : Bytes)
      → Starts RunStatus.downloading
      → At run.id r db
      → Landed (
          settle (last means) db (
            archive_document sha256 db now run.id document_id content_type compression raw decoded))
  unfolding archive_document
  archive_document-Lands sha256 db document_id content_type compression raw decoded start here =
      chain-Lands db (keep_document db _) _
        (λ held put. (
          archive_kept now r,
          write-At run.id r db held (archive_kept now) RunStatus.parsing _ accepted
              (λ x. (refl, refl)) (keep_document-At db held _ put here),
          released (rw start refl) refl,
        ))
        (r, here, untouched (rw start refl))

  archive-Lands :
      (db : MarketplaceDb) (d : AmazonReportDocument) (downloaded : Bytes)
      (content : Result String Bytes)
      → Starts RunStatus.downloading
      → At run.id r db
      → Landed (archive means db now run d downloaded content)
  unfolding archive
  archive-Lands db d downloaded (ok content) start here =
      archive_document-Lands means.sha256 db _ _ _ downloaded content start here
  archive-Lands db d downloaded (err message) start here =
      mark_run_failure-Lands run.id r r db now here accepted _ message
        (within_hour now 0 hour (omega arith)) (follows-failed r.status)

  download_failed-Lands :
      (db : MarketplaceDb) (e : AmazonClientError)
      → Fits now e
      → Starts RunStatus.downloading
      → At run.id r db
      → Landed (download_failed means db now run e)
  download_failed-Lands db expired_download_url fit start here =
      retry_run-Lands run.id r r db now here accepted RunStatus.downloading _ _ _
        (backoff_fits now run.attempts 5 300 hour (omega arith)) (rw start refl)
  download_failed-Lands db (rate_limited retry_after o) fit start here =
      record_client_error-Lands (seen_second means) accepted run.id r r db now hour here
        RunStatus.downloading _ fit (rw start refl) (rw start refl)
  download_failed-Lands db (retryable message) fit start here =
      record_client_error-Lands (seen_second means) accepted run.id r r db now hour here
        RunStatus.downloading _ fit (rw start refl) (rw start refl)
  download_failed-Lands db (permanent message) fit start here =
      record_client_error-Lands (seen_second means) accepted run.id r r db now hour here
        RunStatus.downloading _ fit (rw start refl) (rw start refl)

  take_downloaded-Lands :
      (db : MarketplaceDb) (d : AmazonReportDocument) (answer : Answer Bytes)
      → AnswerFits now answer
      → Starts RunStatus.downloading
      → At run.id r db
      → Landed (take_downloaded means db now run d answer)
  unfolding take_downloaded
  take_downloaded-Lands db d (ok response) fit start here =
      archive-Lands _ d response.value _ start
        (record_observations-At run.id r (seen_second means) response.observations db here)
  take_downloaded-Lands db d (err e) fit start here =
      download_failed-Lands db e (fit e refl) start here

  take_document-Lands :
      (db : MarketplaceDb) (answer : Answer AmazonReportDocument)
      → AnswerFits now answer
      → Starts RunStatus.downloading
      → At run.id r db
      → Landed (take_document means db now run answer)
  unfolding take_document
  take_document-Lands db (ok response) fit start here =
      take_downloaded-Lands _ response.value _ (fits.3 response.value) start
        (record_observations-At run.id r (seen_first means) response.observations db here)
  take_document-Lands db (err e) fit start here =
      record_client_error-Lands (seen_first means) accepted run.id r r db now hour here
        RunStatus.downloading e (fit e refl) (rw start refl) (rw start refl)

  pub fetch-Lands :
      (db : MarketplaceDb) (id : Option String)
      → Starts RunStatus.downloading
      → At run.id r db
      → Landed (fetch means db now run id)
  unfolding fetch
  fetch-Lands db none start here = fail-Lands db _ _ here
  fetch-Lands db (some document_id) start here =
      take_document-Lands db _ (fits.2 (request_of run) document_id) start here
