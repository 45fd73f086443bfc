-- ===== src/Worker/Chain.antt =====
-- The writes that the worker's helpers make are chains of writes for the run.
pub mod Arms
use essentials_merchant.Base.{
  suc, ◌+◌, ◌*◌, inl, inr, arith, Bool-cases, true, false, ℕ, String, Option, none, some, List, [],
  ◌∷◌, ◌≡◌, refl, inl, inr, arith, Option-cases, Result-cases, Result, ok, err, ok_injective, subst,
  >>=-eq-ok,
}
use essentials_merchant.Marketplace.{
  MarketplaceDb, AmazonReportRun, ClaimedReportRun, RunStatus, StoreError, Bytes, ParsedSnapshot,
  ArchivedDocument,
}
use essentials_merchant.Marketplace.Runs.{
  is_time, if_time, or_zero, second, record_transport_observation, append_run_event, update_run,
  set_run_request_created, mark_run_requesting, set_run_poll_pending, set_run_document_ready,
  mark_run_failure, retry_run, mark_run_terminal, request_created, requesting_since, poll_pending,
  document_ready, after_failure, to_retry, ended, failure_status,
}
use essentials_merchant.Marketplace.Steps.{
  IsStatusWrite, Step, wrote, observed, marked, kept, measured, ordered, Steps, stay, also, one,
  Steps-trans,
}
use essentials_merchant.Worker.{
  AmazonReportDocument, AmazonReportStatus, AmazonTransportObservation, AmazonClientError,
  rate_limited, expired_download_url, retryable, permanent, exponential_backoff,
}
use essentials_merchant.Worker.Failure.{
  Means, settle, stored, retry_delay, record_observations, record_client_error,
}

if_time-eq-ok :
    (t : ℕ) (write : Result StoreError MarketplaceDb) {db' : MarketplaceDb}
    → if_time t write ≡ ok db'
    → write ≡ ok db'
if_time-eq-ok t write e = elim (Bool-cases (is_time t)) [
  | inl fits ↦ rw fits at e
  | inr late ↦ absurd (ground (arith, late, e))
]

module _ {id : ℕ} (refused : Option StoreError) (db : MarketplaceDb) where
  settle-Steps :
      (r : Result StoreError MarketplaceDb)
      → ((db' : MarketplaceDb) → r ≡ ok db' → Steps id db db')
      → Steps id db (settle refused db r)
  settle-Steps r chain = settled refused r chain
    where
      settled :
          (o : Option StoreError) (r : Result StoreError MarketplaceDb)
          → ((db' : MarketplaceDb) → r ≡ ok db' → Steps id db db')
          → Steps id db (settle o db r)
      settled (some e) r chain = stay
      settled none (ok db') chain = chain db' refl
      settled none (err e) chain = stay

  write-Steps :
      (f : AmazonReportRun → AmazonReportRun) (status : RunStatus) (message : Option String)
      → IsStatusWrite f status
      → Steps id db (settle refused db (append_run_event (update_run id f db) id status message))
  write-Steps f status message writes =
      settle-Steps (append_run_event (update_run id f db) id status message)
        (λ db' e. one (wrote f status message writes e))

  pub timed-Steps :
      (t : ℕ) (f : AmazonReportRun → AmazonReportRun) (status : RunStatus) (message : Option String)
      → IsStatusWrite f status
      → Steps id db
          (settle refused db (if_time t (append_run_event (update_run id f db) id status message)))
  timed-Steps t f status message writes =
      let write = append_run_event (update_run id f db) id status message in
      settle-Steps (if_time t write)
        (λ db' e. one (wrote f status message writes (if_time-eq-ok t write e)))

  retry_run-Steps :
      (now : ℕ) (status : RunStatus) (code message : String) (delay : ℕ)
      → Steps id db (settle refused db (retry_run db now id status code message delay))
  unfolding retry_run
  retry_run-Steps now status code message delay =
      timed-Steps (now + delay * second) (to_retry now status code message delay) status
        (some message) (λ r. (refl, refl))

  mark_run_terminal-Steps :
      (now : ℕ) (status : RunStatus) (code message : String)
      → Steps id db (settle refused db (mark_run_terminal db now id status code message))
  unfolding mark_run_terminal
  mark_run_terminal-Steps now status code message =
      write-Steps (ended now status code message) status (some message) (λ r. (refl, refl))

  mark_run_failure-Steps :
      (now : ℕ) (code message : String) (retry_after : Option ℕ)
      → Steps id db (settle refused db (mark_run_failure db now id code message retry_after))
  unfolding mark_run_failure
  mark_run_failure-Steps now code message retry_after =
      timed-Steps (now + or_zero retry_after * second) (after_failure now code message retry_after)
        (failure_status retry_after) (some message) (λ r. (refl, refl))

record_observations-Steps :
    (unseen : ℕ → Option StoreError) (id : ℕ) (db : MarketplaceDb)
    (os : List AmazonTransportObservation)
    → Steps id db (record_observations unseen db id os)
unfolding record_observations
record_observations-Steps unseen id db [] = stay
record_observations-Steps unseen id db (o ∷ os) =
    let write = record_transport_observation db (stored id o) in
    Steps-trans (settle-Steps (unseen 0) db write (λ db' e. one (observed (stored id o) e)))
      (record_observations-Steps (λ n. unseen (suc n)) id (settle (unseen 0) db write) os)

record_client_error-Steps :
    (unseen : ℕ → Option StoreError) (refused : Option StoreError) (id : ℕ) (db : MarketplaceDb)
    (now : ℕ) (state : RunStatus) (e : AmazonClientError)
    → Steps id db (record_client_error unseen refused db now id state e)
unfolding record_client_error
record_client_error-Steps unseen refused id db now state (rate_limited retry_after o) =
    Steps-trans (record_observations-Steps unseen id db (o ∷ []))
      (retry_run-Steps refused _ now state _ _ _)
record_client_error-Steps unseen refused id db now state expired_download_url =
    retry_run-Steps refused db now _ _ _ _
record_client_error-Steps unseen refused id db now state (retryable message) =
    retry_run-Steps refused db now _ _ _ _
record_client_error-Steps unseen refused id db now state (permanent message) =
    mark_run_terminal-Steps refused db now _ _ _
