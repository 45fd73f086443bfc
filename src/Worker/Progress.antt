-- ===== src/Worker/Progress.antt =====
-- Where the row of a run stands after the writes of the worker's helpers.
pub mod Outcome
pub mod Arms
pub mod Parsing
pub mod Step
use essentials_merchant.Base.{
  ℕ, suc, String, Bool, true, false, Option, none, some, List, [], ◌∷◌, ◌≡◌, refl, sym, ◌∙◌, subst,
  ap, inl, inr, arith, ◌==◌, find?, any, update_where, find?-update_same, any-eq-true, Result, ok,
  err,
}
use essentials_merchant.Marketplace.{MarketplaceDb, AmazonReportRun, RunStatus, StoreError, is_run}
use essentials_merchant.Marketplace.Runs.{
  append_run_event, update_run, record_transport_observation,
}
use essentials_merchant.Marketplace.Steps.{
  IsStatusWrite, SameCore, record_transport_observation-eq-ok,
}
use essentials_merchant.Marketplace.Isolation.{run_of}
use essentials_merchant.Worker.{AmazonTransportObservation}
use essentials_merchant.Worker.Failure.{settle, stored, record_observations}

-- The row of the run is `r`.
abbrev pub At : ℕ → AmazonReportRun → MarketplaceDb → Type 0
At id r db = run_of id db ≡ some r

module _ (id : ℕ) (r : AmazonReportRun) where
  pub SameCore-At : (a b : MarketplaceDb) → SameCore a b → At id r a → At id r b
  SameCore-At a b (runs, log, documents, connections) h = rw (sym runs) h

  pub write-At :
      {refused : Option StoreError} (base db : MarketplaceDb)
      (f : AmazonReportRun → AmazonReportRun) (status : RunStatus) (message : Option String)
      → refused ≡ none
      → IsStatusWrite f status
      → At id r db
      → At id (f r) (settle refused base (append_run_event (update_run id f db) id status message))
  unfolding append_run_event
  write-At base db f status message accepted writes h =
      let found =
        find?-update_same (is_run id) f db.runs r (λ x. ap (λ (k : ℕ). k == id) (writes x).0) h in
      rw (accepted, any-eq-true (is_run id) (update_where (is_run id) f db.runs) (f r) found) found

  observe-At :
      (refused : Option StoreError) (db : MarketplaceDb) (o : AmazonTransportObservation)
      → At id r db
      → At id r (settle refused db (record_transport_observation db (stored id o)))
  observe-At refused db o h =
      settled refused (record_transport_observation db (stored id o))
        (λ db' e. subst (At id r) (record_transport_observation-eq-ok db (stored id o) e) h)
    where
      settled :
          (refused : Option StoreError) (w : Result StoreError MarketplaceDb)
          → ((db' : MarketplaceDb) → w ≡ ok db' → At id r db')
          → At id r (settle refused db w)
      settled (some e) w there = h
      settled none (ok db') there = there db' refl
      settled none (err e) there = h

  pub record_observations-At :
      (unseen : ℕ → Option StoreError) (os : List AmazonTransportObservation) (db : MarketplaceDb)
      → At id r db
      → At id r (record_observations unseen db id os)
  unfolding record_observations
  record_observations-At unseen [] db h = h
  record_observations-At unseen (o ∷ os) db h =
      record_observations-At (λ n. unseen (suc n)) os
        (settle (unseen 0) db (record_transport_observation db (stored id o)))
        (observe-At (unseen 0) db o h)
