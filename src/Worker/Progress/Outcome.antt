-- ===== src/Worker/Progress/Outcome.antt =====
-- What a step of the worker makes of the row of its run.
use essentials_merchant.Base.{
  ◌+◌, ◌*◌, ◌≤◌, arith, ℕ, String, Bool, true, false, Option, none, some, [], ◌∷◌, ◌≡◌, refl,
}
use essentials_merchant.Marketplace.{MarketplaceDb, AmazonReportRun, RunStatus, StoreError}
use essentials_merchant.Marketplace.Runs.{
  is_time, if_time, second, append_run_event, update_run, retry_run, mark_run_terminal,
  mark_run_failure, to_retry, ended, after_failure,
}
use essentials_merchant.Marketplace.Steps.{IsStatusWrite}
use essentials_merchant.Worker.{
  exponential_backoff, AmazonClientError, rate_limited, expired_download_url, retryable, permanent,
}
use essentials_merchant.Worker.Failure.{retry_delay, settle, record_client_error}
use essentials_merchant.Worker.Progress.{At, write-At, record_observations-At}

-- The statuses that a released run may have after a step, by its status before.
abbrev pub follows : RunStatus → RunStatus → Bool
follows RunStatus.queued RunStatus.requesting = true
follows RunStatus.queued RunStatus.polling = true
follows RunStatus.queued RunStatus.downloading = true
follows RunStatus.requesting RunStatus.requesting = true
follows RunStatus.requesting RunStatus.polling = true
follows RunStatus.requesting RunStatus.downloading = true
follows RunStatus.polling RunStatus.polling = true
follows RunStatus.polling RunStatus.downloading = true
follows RunStatus.polling RunStatus.cancelled = true
follows RunStatus.polling RunStatus.fatal = true
follows RunStatus.downloading RunStatus.downloading = true
follows RunStatus.downloading RunStatus.parsing = true
follows RunStatus.parsing RunStatus.parsing = true
follows RunStatus.parsing RunStatus.analysing = true
follows RunStatus.parsing RunStatus.archived = true
follows _ RunStatus.failed = true
follows _ _ = false

-- The statuses in which a step may leave the row as it is, with its lock.
abbrev pub may_rest : RunStatus → Bool
may_rest RunStatus.downloading = true
may_rest RunStatus.analysing = true
may_rest _ = false

pub data Outcome (r : AmazonReportRun) : AmazonReportRun → Type 0 where
  released :
      {r' : AmazonReportRun}
      → follows r.status r'.status ≡ true
      → r'.locked_at ≡ none
      → Outcome r r'
  untouched : may_rest r.status ≡ true → Outcome r r

-- The row of the run in the database is an outcome of `r`.
abbrev pub Lands : ℕ → AmazonReportRun → MarketplaceDb → Type 0
Lands id r db = (r' : AmazonReportRun) × At id r' db × Outcome r r'

-- `r` is the row before the step and `q` the row before the write.
module _ (id : ℕ) (r q : AmazonReportRun) (db : MarketplaceDb) (now : ℕ) (here : At id q db)
    {refused : Option StoreError} (accepted : refused ≡ none) where
  pub write-Lands :
      (f : AmazonReportRun → AmazonReportRun) (status : RunStatus) (message : Option String)
      → IsStatusWrite f status
      → follows r.status (f q).status ≡ true
      → (f q).locked_at ≡ none
      → Lands id r (settle refused db (append_run_event (update_run id f db) id status message))
  write-Lands f status message writes next free =
      (f q, write-At id q db db f status message accepted writes here, released next free)

  pub timed-Lands :
      (t : ℕ) (f : AmazonReportRun → AmazonReportRun) (status : RunStatus) (message : Option String)
      → is_time t ≡ true
      → IsStatusWrite f status
      → follows r.status (f q).status ≡ true
      → (f q).locked_at ≡ none
      → Lands id r
          (settle refused db (if_time t (append_run_event (update_run id f db) id status message)))
  timed-Lands t f status message fits writes next free =
      rw fits (write-Lands f status message writes next free)

  pub retry_run-Lands :
      (status : RunStatus) (code message : String) (delay : ℕ)
      → is_time (now + delay * second) ≡ true
      → follows r.status status ≡ true
      → Lands id r (settle refused db (retry_run db now id status code message delay))
  unfolding retry_run
  retry_run-Lands status code message delay fits next =
      timed-Lands (now + delay * second) (to_retry now status code message delay) status
        (some message) fits (λ x. (refl, refl)) next refl

  pub mark_run_terminal-Lands :
      (status : RunStatus) (code message : String)
      → follows r.status status ≡ true
      → Lands id r (settle refused db (mark_run_terminal db now id status code message))
  unfolding mark_run_terminal
  mark_run_terminal-Lands status code message next =
      write-Lands (ended now status code message) status (some message) (λ x. (refl, refl)) next
        refl

  pub mark_run_failure-Lands :
      (code message : String)
      → is_time (now + 0 * second) ≡ true
      → follows r.status RunStatus.failed ≡ true
      → Lands id r (settle refused db (mark_run_failure db now id code message none))
  unfolding mark_run_failure
  mark_run_failure-Lands code message fits next =
      timed-Lands (now + 0 * second) (after_failure now code message none) RunStatus.failed
        (some message) fits (λ x. (refl, refl)) next refl

exponential_backoff-bound : (attempt base most : ℕ) → exponential_backoff attempt base most ≤ most
unfolding exponential_backoff
exponential_backoff-bound attempt base most = omega arith

-- Any run may fail.
pub follows-failed : (s : RunStatus) → follows s RunStatus.failed ≡ true
follows-failed RunStatus.queued = refl
follows-failed RunStatus.requesting = refl
follows-failed RunStatus.polling = refl
follows-failed RunStatus.downloading = refl
follows-failed RunStatus.parsing = refl
follows-failed RunStatus.analysing = refl
follows-failed RunStatus.succeeded = refl
follows-failed RunStatus.archived = refl
follows-failed RunStatus.cancelled = refl
follows-failed RunStatus.fatal = refl
follows-failed RunStatus.failed = refl

-- An hour, the longest delay of the code's own, does not lead beyond the last timestamp.
abbrev pub HourLeft : ℕ → Type 0
HourLeft now = is_time (now + 3600 * second) ≡ true

-- The time to which the error puts off the run is a timestamp.
abbrev pub Fits : ℕ → AmazonClientError → Type 0
Fits now (rate_limited retry_after o) = is_time (now + retry_delay retry_after * second) ≡ true
Fits now _ = Unit

pub within_hour :
    (now delay : ℕ) → HourLeft now → delay ≤ 3600 → is_time (now + delay * second) ≡ true
within_hour now delay hour h = ground (arith, hour, h)

pub backoff_fits :
    (now attempt base most : ℕ)
    → HourLeft now
    → most ≤ 3600
    → is_time (now + exponential_backoff attempt base most * second) ≡ true
backoff_fits now attempt base most hour h =
    within_hour now (exponential_backoff attempt base most) hour
      (omega (arith, exponential_backoff-bound attempt base most, h))

pub record_client_error-Lands :
    (unseen : ℕ → Option StoreError) {refused : Option StoreError} (accepted : refused ≡ none)
    (id : ℕ) (r q : AmazonReportRun) (db : MarketplaceDb) (now : ℕ)
    → HourLeft now
    → At id q db
    → (state : RunStatus) (e : AmazonClientError) → Fits now e
    → follows r.status state ≡ true
    → follows r.status RunStatus.downloading ≡ true
    → Lands id r (record_client_error unseen refused db now id state e)
unfolding record_client_error
record_client_error-Lands unseen accepted id r q db now hour here state (rate_limited retry_after o)
      fits next again =
    retry_run-Lands id r q _ now (record_observations-At id q unseen (o ∷ []) db here) accepted
      state _ _ (retry_delay retry_after) fits next
record_client_error-Lands unseen accepted id r q db now hour here state expired_download_url fits
      next again =
    retry_run-Lands id r q db now here accepted RunStatus.downloading _ _ _
      (within_hour now 5 hour (omega arith)) again
record_client_error-Lands unseen accepted id r q db now hour here state (retryable message) fits
      next again =
    retry_run-Lands id r q db now here accepted state _ _ _ (within_hour now 60 hour (omega arith))
      next
record_client_error-Lands unseen accepted id r q db now hour here state (permanent message) fits
      next again =
    mark_run_terminal-Lands id r q db now here accepted RunStatus.failed _ _
      (follows-failed r.status)
