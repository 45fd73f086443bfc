-- ===== src/Marketplace/Steps.antt =====
-- The writes that a worker makes for one run, as a relation between databases, and chains of them.
use essentials_merchant.Base.{
  ℕ, false, String, Option, none, List, ◌∷◌, ◌≡◌, refl, ap, ◌⊎◌, inl, inr, arith, any, not, str_eq,
  Bool-cases, Option-cases, Result-cases, ok, ok_injective, guard-eq-ok, guard_not-eq-ok,
}
use essentials_merchant.Marketplace.{
  MarketplaceDb, AmazonReportRun, ClaimedReportRun, RunStatus, StoredObservation, ArchivedDocument,
  MetricSnapshot, ParsedMetric, foreign_key_violation, check_violation, unique_violation, protocol,
  is_run,
}
use essentials_merchant.Marketplace.Runs.{
  append_run_event, update_run, record_transport_observation, is_storable,
}
use essentials_merchant.Marketplace.Documents.{keep_document, mark_document_import, document_of}
use essentials_merchant.Marketplace.Snapshots.{
  keep_snapshot, enqueue_delta_analysis, is_snapshot_of, has_clash, is_delta_of,
}

-- What the writes leave when they succeed.
pub append_run_event-eq-ok :
    (db : MarketplaceDb) (id : ℕ) (status : RunStatus) (message : Option String)
    {db' : MarketplaceDb}
    → append_run_event db id status message ≡ ok db'
    → record db { log = record { run_id = id; status = status; message = message } ∷ db.log } ≡ db'
unfolding append_run_event
append_run_event-eq-ok db id status message e =
    guard-eq-ok (any (is_run id) db.runs) foreign_key_violation e

pub record_transport_observation-eq-ok :
    (db : MarketplaceDb) (o : StoredObservation) {db' : MarketplaceDb}
    → record_transport_observation db o ≡ ok db'
    → record db { observations = o ∷ db.observations } ≡ db'
unfolding record_transport_observation
record_transport_observation-eq-ok db o e = elim (Bool-cases (any (is_run o.run_id) db.runs)) [
  | inl there ↦
      guard_not-eq-ok (not (is_storable o.retry_after_seconds)) check_violation (rw there at e)
  | inr absent ↦ absurd (ground (arith, absent, e))
]

pub keep_document-eq-ok :
    (db : MarketplaceDb) (new : ArchivedDocument) {db' : MarketplaceDb}
    → keep_document db new ≡ ok db'
    → (db ≡ db')
      ⊎ ((document_of new.run_id db ≡ none) × (record db { documents = new ∷ db.documents } ≡ db'))
unfolding keep_document
keep_document-eq-ok db new e = elim (Option-cases (document_of new.run_id db)) [
  | inl fresh ↦ inr (fresh, ok_injective (rw (fresh, keep_document) at e))
  | inr (old, found) ↦ inl (
      guard-eq-ok (str_eq old.sha256 new.sha256)
        (protocol "downloaded report content differs from immutable archive")
        (rw (found, keep_document) at e))
]

-- The tables of runs, of their log, of the archive and of connections are the same.
abbrev pub SameCore : MarketplaceDb → MarketplaceDb → Type 0
SameCore a b =
    (a.runs ≡ b.runs)
    × (a.log ≡ b.log)
    × (a.documents ≡ b.documents)
    × (a.connections ≡ b.connections)

SameCore-eq : {a b : MarketplaceDb} → a ≡ b → SameCore a b
SameCore-eq same = (
  ap (λ (db : MarketplaceDb). db.runs) same,
  ap (λ (db : MarketplaceDb). db.log) same,
  ap (λ (db : MarketplaceDb). db.documents) same,
  ap (λ (db : MarketplaceDb). db.connections) same,
)

pub keep_snapshot-SameCore :
    (db : MarketplaceDb) (new : MetricSnapshot) (metrics : List ParsedMetric) {db' : MarketplaceDb}
    → keep_snapshot db new metrics ≡ ok db'
    → SameCore db db'
unfolding keep_snapshot
keep_snapshot-SameCore db new metrics e =
    elim (Bool-cases (any (is_snapshot_of new.run_id) db.snapshots)) [
      | inl there ↦ SameCore-eq (ok_injective (rw (there, keep_snapshot) at e))
      | inr fresh ↦
          let left =
            guard_not-eq-ok (has_clash metrics) unique_violation (rw (fresh, keep_snapshot) at e) in
          SameCore-eq left
    ]

pub enqueue_delta_analysis-SameCore :
    (db : MarketplaceDb) (now new_id : ℕ) (run : ClaimedReportRun)
    → SameCore db (enqueue_delta_analysis db now new_id run)
unfolding enqueue_delta_analysis
enqueue_delta_analysis-SameCore db now new_id run =
    elim (Bool-cases (any (is_delta_of run.id) db.jobs)) [
      | inl there ↦ rw there (refl, refl, refl, refl)
      | inr fresh ↦ rw fresh (refl, refl, refl, refl)
    ]

-- `f` sets the status and keeps what identifies the run.
abbrev pub IsStatusWrite : (AmazonReportRun → AmazonReportRun) → RunStatus → Type 0
IsStatusWrite f status = (r : AmazonReportRun) → ((f r).id ≡ r.id) × ((f r).status ≡ status)

pub data Step (id : ℕ) : MarketplaceDb → MarketplaceDb → Type 0 where
  wrote :
      {db db' : MarketplaceDb} (f : AmazonReportRun → AmazonReportRun) (status : RunStatus)
      (message : Option String)
      → IsStatusWrite f status
      → append_run_event (update_run id f db) id status message ≡ ok db'
      → Step id db db'
  observed :
      {db db' : MarketplaceDb} (o : StoredObservation)
      → record_transport_observation db o ≡ ok db'
      → Step id db db'
  marked :
      {db : MarketplaceDb} (version : Option String) (outcome : String) (message : Option String)
      → Step id db (mark_document_import db id version outcome message)
  kept :
      {db db' : MarketplaceDb} (new : ArchivedDocument)
      → keep_document db new ≡ ok db'
      → Step id db db'
  measured :
      {db db' : MarketplaceDb} (new : MetricSnapshot) (metrics : List ParsedMetric)
      → keep_snapshot db new metrics ≡ ok db'
      → Step id db db'
  ordered :
      {db : MarketplaceDb} (now new_id : ℕ) (run : ClaimedReportRun)
      → Step id db (enqueue_delta_analysis db now new_id run)

pub data Steps (id : ℕ) : MarketplaceDb → MarketplaceDb → Type 0 where
  stay : {db : MarketplaceDb} → Steps id db db
  also : {a b c : MarketplaceDb} → Step id a b → Steps id b c → Steps id a c

module _ {id : ℕ} where
  pub Steps-trans : {a b c : MarketplaceDb} → Steps id a b → Steps id b c → Steps id a c
  Steps-trans stay k = k
  Steps-trans (also s h) k = also s (Steps-trans h k)

  pub one : {a b : MarketplaceDb} → Step id a b → Steps id a b
  one s = also s stay

  -- What every step keeps, a chain keeps.
  pub Steps-keep {κ} :
      (P : MarketplaceDb → Type κ) {a b : MarketplaceDb}
      → ((db db' : MarketplaceDb) → Step id db db' → P db → P db')
      → Steps id a b
      → P a
      → P b
  Steps-keep P keep stay p = p
  Steps-keep P keep (also {a} {b} s h) p = Steps-keep P keep h (keep a b s p)

pub keep_document-fresh :
    (db : MarketplaceDb) (new : ArchivedDocument)
    → document_of new.run_id db ≡ none
    → keep_document db new ≡ ok (record db { documents = new ∷ db.documents })
unfolding keep_document
keep_document-fresh db new fresh = rw (fresh, keep_document) refl

pub keep_snapshot_total :
    (db : MarketplaceDb) (new : MetricSnapshot) (metrics : List ParsedMetric)
    → has_clash metrics ≡ false
    → (held : MarketplaceDb) × (keep_snapshot db new metrics ≡ ok held)
unfolding keep_snapshot
keep_snapshot_total db new metrics distinct = elim (Result-cases (keep_snapshot db new metrics)) [
  | inl good ↦ good
  | inr (refused, e) ↦ absurd (ground (arith, distinct, e))
]
