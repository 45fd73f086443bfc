-- ===== src/Marketplace/Isolation.antt =====
-- The writes for one run leave the rows and the log of the others as they are.
use essentials_merchant.Base.{
  ℕ, false, Option, List, ◌≡◌, refl, sym, ◌∙◌, subst, ap, inl, inr, arith, ◌==◌, find?,
  find?-update_other, update_where,
}
use essentials_merchant.Marketplace.{MarketplaceDb, AmazonReportRun, AmazonRunEvent, is_run}
use essentials_merchant.Marketplace.Runs.{update_run}
use essentials_merchant.Marketplace.Documents.{mark_document_import}
use essentials_merchant.Marketplace.Snapshots.{enqueue_delta_analysis}
use essentials_merchant.Marketplace.Steps.{
  Step, wrote, observed, marked, kept, measured, ordered, Steps, stay, also, SameCore,
  append_run_event-eq-ok, record_transport_observation-eq-ok, keep_document-eq-ok,
  keep_snapshot-SameCore, enqueue_delta_analysis-SameCore,
}
use essentials_merchant.Marketplace.Log.{is_entry_of}

abbrev pub run_of : ℕ → MarketplaceDb → Option AmazonReportRun
run_of id db = find? (is_run id) db.runs

abbrev pub last_entry : ℕ → MarketplaceDb → Option AmazonRunEvent
last_entry id db = find? (is_entry_of id) db.log

-- The row of the run and its last log entry are the same in both.
abbrev pub SameRun : ℕ → MarketplaceDb → MarketplaceDb → Type 0
SameRun id a b = (run_of id a ≡ run_of id b) × (last_entry id a ≡ last_entry id b)

find?-other :
    (j id : ℕ) (f : AmazonReportRun → AmazonReportRun) (rs : List AmazonReportRun)
    → (j == id) ≡ false
    → ((r : AmazonReportRun) → (f r).id ≡ r.id)
    → find? (is_run j) (update_where (is_run id) f rs) ≡ find? (is_run j) rs
find?-other j id f rs apart keep =
    find?-update_other (is_run j) (is_run id) f rs
      (λ r hit. (ground (arith, hit, apart), ground (arith, hit, apart, keep r)))

module _ (j : ℕ) where
  SameCore-SameRun : (a b : MarketplaceDb) → SameCore a b → SameRun j a b
  SameCore-SameRun a b (runs, log, documents, connections) =
      (ap (λ rs. find? (is_run j) rs) runs, ap (λ es. find? (is_entry_of j) es) log)

  Step-SameRun :
      {id : ℕ} (db db' : MarketplaceDb) → (j == id) ≡ false → Step id db db' → SameRun j db db'
  unfolding mark_document_import
  Step-SameRun {id} db db' apart (wrote f status message writes e) =
      subst (SameRun j db) (append_run_event-eq-ok (update_run id f db) id status message e)
        (sym (find?-other j id f db.runs apart (λ r. (writes r).0)), ground (arith, apart))
  Step-SameRun {id} db db' apart (observed o e) =
      subst (SameRun j db) (record_transport_observation-eq-ok db o e) (refl, refl)
  Step-SameRun {id} db db' apart (marked version outcome message) = (refl, refl)
  Step-SameRun {id} db db' apart (kept new e) = elim (keep_document-eq-ok db new e) [
    | inl same ↦ subst (SameRun j db) same (refl, refl)
    | inr (fresh, same) ↦ subst (SameRun j db) same (refl, refl)
  ]
  Step-SameRun {id} db db' apart (measured new metrics e) =
      SameCore-SameRun db db' (keep_snapshot-SameCore db new metrics e)
  Step-SameRun {id} db db' apart (ordered now new_id run) =
      SameCore-SameRun db (enqueue_delta_analysis db now new_id run)
        (enqueue_delta_analysis-SameCore db now new_id run)

  pub Steps-SameRun :
      {id : ℕ} {db db' : MarketplaceDb} → (j == id) ≡ false → Steps id db db' → SameRun j db db'
  Steps-SameRun apart stay = (refl, refl)
  Steps-SameRun apart (also {a} {b} s chain) =
      let here = Step-SameRun a b apart s in
      let rest = Steps-SameRun apart chain in (here.0 ∙ rest.0, here.1 ∙ rest.1)
