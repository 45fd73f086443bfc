-- ===== src/Marketplace/Archive.antt =====
-- What is archived for a run stays what it is.
use essentials_merchant.Base.{
  ℕ, String, none, some, ◌∷◌, ◌≡◌, refl, sym, subst, ap, inl, inr, arith, find?, find?-update_where,
  Bool-cases,
}
use essentials_merchant.Marketplace.{MarketplaceDb, ArchivedDocument, Bytes}
use essentials_merchant.Marketplace.Runs.{update_run}
use essentials_merchant.Marketplace.Documents.{
  document_of, is_document_of, mark_document_import, with_import,
}
use essentials_merchant.Marketplace.Snapshots.{enqueue_delta_analysis}
use essentials_merchant.Marketplace.Steps.{
  Step, wrote, observed, marked, kept, measured, ordered, Steps, Steps-keep, SameCore,
  append_run_event-eq-ok, record_transport_observation-eq-ok, keep_document-eq-ok,
  keep_snapshot-SameCore, enqueue_delta_analysis-SameCore,
}

abbrev pub HasContent : Bytes → Bytes → String → ArchivedDocument → Type 0
HasContent raw decoded sha256 d =
    (d.raw_content ≡ raw) × (d.decoded_content ≡ decoded) × (d.sha256 ≡ sha256)

-- The archive holds these bytes, with this decoding and this digest, for the run.
unfoldable pub Holds : ℕ → Bytes → Bytes → String → MarketplaceDb → Type 0
Holds id raw decoded sha256 db =
    (d : ArchivedDocument) × (document_of id db ≡ some d) × HasContent raw decoded sha256 d

module _ (id : ℕ) (raw decoded : Bytes) (sha256 : String) where
  abbrev Kept : MarketplaceDb → Type 0
  Kept = Holds id raw decoded sha256

  SameCore-Holds : (a b : MarketplaceDb) → SameCore a b → Kept a → Kept b
  unfolding Holds document_of
  SameCore-Holds a b (runs, log, documents, connections) (d, found, content) =
      (d, rw (sym documents) found, content)

  insert-Holds :
      (db : MarketplaceDb) (new : ArchivedDocument)
      → document_of new.run_id db ≡ none
      → Kept db
      → Kept (record db { documents = new ∷ db.documents })
  unfolding Holds document_of
  insert-Holds db new fresh (d, found, content) = elim (Bool-cases (is_document_of id new)) [
    | inl same ↦ absurd (clash (ground (arith, same)))
    | inr other ↦ (d, rw other found, content)
  ]
    where
      clash : new.run_id ≡ id → ⊥
      clash same = cc (ap (λ (k : ℕ). find? (is_document_of k) db.documents) same, fresh, found)

  Step-Holds : {j : ℕ} (db db' : MarketplaceDb) → Step j db db' → Kept db → Kept db'
  unfolding Holds document_of mark_document_import
  Step-Holds {j} db db' (wrote f status message writes e) h =
      subst Kept (append_run_event-eq-ok (update_run j f db) j status message e) h
  Step-Holds {j} db db' (observed o e) h = subst Kept (record_transport_observation-eq-ok db o e) h
  Step-Holds {j} db db' (marked version outcome message) (d, found, content) =
      find?-update_where (HasContent raw decoded sha256) (is_document_of id) (is_document_of j)
        (with_import version outcome message) db.documents d (λ x. refl) (λ x good. good) found
        content
  Step-Holds {j} db db' (kept new e) h = elim (keep_document-eq-ok db new e) [
    | inl same ↦ subst Kept same h
    | inr (fresh, same) ↦ subst Kept same (insert-Holds db new fresh h)
  ]
  Step-Holds {j} db db' (measured new metrics e) h =
      SameCore-Holds db db' (keep_snapshot-SameCore db new metrics e) h
  Step-Holds {j} db db' (ordered now new_id run) h =
      SameCore-Holds db (enqueue_delta_analysis db now new_id run)
        (enqueue_delta_analysis-SameCore db now new_id run) h

  pub Steps-Holds : {j : ℕ} {db db' : MarketplaceDb} → Steps j db db' → Kept db → Kept db'
  Steps-Holds = Steps-keep Kept Step-Holds
