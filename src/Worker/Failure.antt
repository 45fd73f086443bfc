-- ===== src/Worker/Failure.antt =====
-- What the worker does with the answers of the store and with errors of the client. The database
-- may refuse a write, and the worker then goes on without it.
use essentials_merchant.Base.{
  ℕ, suc, ℤ, pos, negsuc, max, String, Option, none, some, List, [], ◌∷◌, Result, ok, err,
}
use essentials_merchant.Marketplace.{MarketplaceDb, RunStatus, StoreError, StoredObservation, Bytes}
use essentials_merchant.Marketplace.Runs.{
  retry_run, mark_run_terminal, record_transport_observation,
}
use essentials_merchant.Worker.{
  AmazonReportsClient, AmazonTransportObservation, AmazonClientError, rate_limited,
  expired_download_url, retryable, permanent, Parsers, as_str,
}

-- The writes of a step whose result is dropped: the mark before a report is requested, the n-th
-- observation of the first and of the second answer, the mark of a failed import, and the write that
-- ends the step.
pub data Write : Type 0 where
  marks_requesting marks_import ends_step : Write
  observes observes_download : ℕ → Write

-- What a step is given: the client, the libraries, the ids for a snapshot and its job, and the
-- errors of the database: those of the dropped writes, of the read of the archive and of the write
-- of a snapshot. A constraint that a write breaks is an error besides.
pub record Means : Type 0 where
  pub client : AmazonReportsClient
  pub parsers : Parsers
  pub gunzip : Bytes → Result String Bytes
  pub sha256 : Bytes → String
  pub display : StoreError → String
  pub snapshot_id : ℕ
  pub job_id : ℕ
  pub refusal : Write → Option StoreError
  pub archive_outage : Option StoreError
  pub snapshot_outage : Option StoreError

-- `let _ = … .await`
abbrev pub settle :
    Option StoreError → MarketplaceDb → Result StoreError MarketplaceDb → MarketplaceDb
settle (some e) db r = db
settle none db (ok db') = db'
settle none db (err e) = db

abbrev pub stored : ℕ → AmazonTransportObservation → StoredObservation
stored id o = record {
  run_id = id;
  operation = as_str o.operation;
  request_id_redacted = o.request_id_redacted;
  rate_limit_limit = o.rate_limit_limit;
  retry_after_seconds = o.retry_after_seconds;
}

unfoldable pub record_observations :
    (ℕ → Option StoreError) → MarketplaceDb → ℕ → List AmazonTransportObservation → MarketplaceDb
record_observations refused db id [] = db
record_observations refused db id (o ∷ os) =
    record_observations (λ n. refused (suc n))
      (settle (refused 0) db (record_transport_observation db (stored id o))) id os

-- `unwrap_or(60).max(1)`
abbrev pub retry_delay : Option ℤ → ℕ
retry_delay none = 60
retry_delay (some (pos n)) = max n 1
retry_delay (some (negsuc n)) = 1

unfoldable pub record_client_error :
    (ℕ → Option StoreError)
    → Option StoreError
    → MarketplaceDb
    → ℕ
    → ℕ
    → RunStatus
    → AmazonClientError
    → MarketplaceDb
unfolding record_observations
record_client_error unseen refused db now id state (rate_limited retry_after o) =
    let db' = record_observations unseen db id (o ∷ []) in
    settle refused db' (
      retry_run db' now id state "rate_limited"
        "Amazon returned HTTP 429; retry scheduled with backoff" (retry_delay retry_after))
record_client_error unseen refused db now id state (retryable message) =
    settle refused db (retry_run db now id state "temporary_error" message 60)
record_client_error unseen refused db now id state expired_download_url = settle refused db (
    retry_run db now id RunStatus.downloading "download_url_expired"
      "Amazon download URL expired; requesting a fresh document URL" 5)
record_client_error unseen refused db now id state (permanent message) =
    settle refused db (mark_run_terminal db now id RunStatus.failed "amazon_error" message)

abbrev pub fail_run : Option StoreError → MarketplaceDb → ℕ → ℕ → String → String → MarketplaceDb
fail_run refused db now id code message =
    settle refused db (mark_run_terminal db now id RunStatus.failed code message)
