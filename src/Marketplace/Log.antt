-- ===== src/Marketplace/Log.antt =====
-- The log of a run tells its status.
use essentials_merchant.Base.{
  ℕ, Bool, false, some, List, ◌∷◌, ◌≡◌, sym, subst, inl, inr, arith, ◌==◌, find?, update_where, All,
  All-update_cases,
}
use essentials_merchant.Marketplace.{MarketplaceDb, AmazonReportRun, AmazonRunEvent, is_run}
use essentials_merchant.Marketplace.Runs.{update_run}
use essentials_merchant.Marketplace.Documents.{mark_document_import}
use essentials_merchant.Marketplace.Snapshots.{enqueue_delta_analysis}
use essentials_merchant.Marketplace.Steps.{
  IsStatusWrite, Step, wrote, observed, marked, kept, measured, ordered, Steps, Steps-keep,
  SameCore, append_run_event-eq-ok, record_transport_observation-eq-ok, keep_document-eq-ok,
  keep_snapshot-SameCore, enqueue_delta_analysis-SameCore,
}

abbrev pub is_entry_of : ℕ → AmazonRunEvent → Bool
is_entry_of id e = e.run_id == id

-- The newest entry of the run names its status.
abbrev pub IsToldBy : List AmazonRunEvent → AmazonReportRun → Type 0
IsToldBy log r =
    (e : AmazonRunEvent) × (find? (is_entry_of r.id) log ≡ some e) × (e.status ≡ r.status)

unfoldable pub IsLogged : MarketplaceDb → Type 0
IsLogged db = All (IsToldBy db.log) db.runs

-- A new entry for the run itself, and for another one.
IsToldBy-own :
    (e : AmazonRunEvent) (log : List AmazonRunEvent) (r : AmazonReportRun)
    → e.run_id ≡ r.id
    → e.status ≡ r.status
    → IsToldBy (e ∷ log) r
IsToldBy-own e log r own same = (e, ground (arith, own), same)

IsToldBy-other :
    (e : AmazonRunEvent) (log : List AmazonRunEvent) (r : AmazonReportRun)
    → (r.id == e.run_id) ≡ false
    → IsToldBy log r
    → IsToldBy (e ∷ log) r
IsToldBy-other e log r other (told, found, same) = (told, ground (arith, other, found), same)

write-IsToldBy :
    (f : AmazonReportRun → AmazonReportRun) (e : AmazonRunEvent) (log : List AmazonRunEvent)
    (rs : List AmazonReportRun)
    → IsStatusWrite f e.status
    → All (IsToldBy log) rs
    → All (IsToldBy (e ∷ log)) (update_where (is_run e.run_id) f rs)
write-IsToldBy f e log rs writes =
    All-update_cases (IsToldBy log) (IsToldBy (e ∷ log)) (is_run e.run_id) f rs
      (λ r told hit.
        IsToldBy-own e log (f r) (ground (arith, hit, (writes r).0)) (sym (writes r).1))
      (λ r told miss. IsToldBy-other e log r miss told)

SameCore-IsLogged : (a b : MarketplaceDb) → SameCore a b → IsLogged a → IsLogged b
unfolding IsLogged
SameCore-IsLogged a b (runs, log, documents, connections) h = rw (sym runs, sym log) h

Step-IsLogged : {id : ℕ} (db db' : MarketplaceDb) → Step id db db' → IsLogged db → IsLogged db'
unfolding IsLogged mark_document_import
Step-IsLogged {id} db db' (wrote f status message writes e) h =
    subst IsLogged (append_run_event-eq-ok (update_run id f db) id status message e) (
      write-IsToldBy f (record { run_id = id; status = status; message = message }) db.log db.runs
        writes h)
Step-IsLogged {id} db db' (observed o e) h =
    subst IsLogged (record_transport_observation-eq-ok db o e) h
Step-IsLogged {id} db db' (marked version outcome message) h = h
Step-IsLogged {id} db db' (kept new e) h = elim (keep_document-eq-ok db new e) [
  | inl same ↦ subst IsLogged same h
  | inr (fresh, same) ↦ subst IsLogged same h
]
Step-IsLogged {id} db db' (measured new metrics e) h =
    SameCore-IsLogged db db' (keep_snapshot-SameCore db new metrics e) h
Step-IsLogged {id} db db' (ordered now new_id run) h =
    SameCore-IsLogged db (enqueue_delta_analysis db now new_id run)
      (enqueue_delta_analysis-SameCore db now new_id run) h

pub Steps-IsLogged :
    {id : ℕ} {db db' : MarketplaceDb} → Steps id db db' → IsLogged db → IsLogged db'
Steps-IsLogged = Steps-keep IsLogged Step-IsLogged
