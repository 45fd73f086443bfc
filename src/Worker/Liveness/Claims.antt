-- ===== src/Worker/Liveness/Claims.antt =====
-- A claim hands out the one run of the table that has not ended.
use essentials_merchant.Base.{
  ℕ, ◌≤◌, ◌≡◌, refl, sym, ◌∙◌, subst, ap, inl, inr, arith, Bool, true, false, none, some, List, [],
  ◌∷◌, ◌++◌, find?, select, update_where, All, some_injective,
}
use essentials_merchant.Marketplace.{
  MarketplaceDb, AmazonConnection, AmazonReportRun, is_open, is_run,
}
use essentials_merchant.Marketplace.Runs.{update_run}
use essentials_merchant.Marketplace.Documents.{mark_document_import}
use essentials_merchant.Marketplace.Queue.{is_connection}
use essentials_merchant.Marketplace.Claim.{
  claim_due_runs, claimed, selected, is_due, is_among, release_lapsed, with_connection,
}
use essentials_merchant.Marketplace.Steps.{
  Step, wrote, observed, marked, kept, measured, ordered, Steps, Steps-keep, append_run_event-eq-ok,
  record_transport_observation-eq-ok, keep_document-eq-ok, keep_snapshot-SameCore,
  enqueue_delta_analysis-SameCore,
}
use essentials_merchant.Worker.Failure.{Means}
use essentials_merchant.Worker.Gate.{Surroundings}
use essentials_merchant.Worker.Process.{process_run}
use essentials_merchant.Worker.Cycle.{process_runs, work_runs}
use essentials_merchant.Worker.Progress.{At}

-- A row of another run, which has ended.
abbrev pub IsIdle : ℕ → AmazonReportRun → Type 0
IsIdle id r = (is_run id r ≡ false) × (is_open r.status ≡ false)

release-idle :
    (id now : ℕ) (rs : List AmazonReportRun) → All (IsIdle id) rs → release_lapsed now rs ≡ rs
unfolding release_lapsed
release-idle id now [] h = refl
release-idle id now (r ∷ rs) h = rw (release-idle id now rs h.1) (ground (arith, h.0.1))

update-idle :
    (id : ℕ) (f : AmazonReportRun → AmazonReportRun) (rs : List AmazonReportRun)
    → All (IsIdle id) rs
    → update_where (is_run id) f rs ≡ rs
update-idle id f [] h = refl
update-idle id f (r ∷ rs) h = rw (h.0.0, update-idle id f rs h.1) refl

-- The row of the run among the others.
module _ (id : ℕ) (before after : List AmazonReportRun) (idle : All (IsIdle id) before)
    (idle_after : All (IsIdle id) after) where
  update-among :
      (f : AmazonReportRun → AmazonReportRun) (q : AmazonReportRun) (rs : List AmazonReportRun)
      → All (IsIdle id) rs
      → q.id ≡ id
      → update_where (is_run id) f (rs ++ q ∷ after) ≡ rs ++ f q ∷ after
  update-among f q [] h own = rw (update-idle id f after idle_after) (ground (arith, own))
  update-among f q (r ∷ rs) h own = rw (h.0.0, update-among f q rs h.1 own) refl

  find-among :
      (q : AmazonReportRun) (rs : List AmazonReportRun)
      → All (IsIdle id) rs
      → q.id ≡ id
      → find? (is_run id) (rs ++ q ∷ after) ≡ some q
  find-among q [] h own = ground (arith, own)
  find-among q (r ∷ rs) h own = rw h.0.0 (find-among q rs h.1 own)

  select-idle :
      (p : AmazonReportRun → Bool) (rs : List AmazonReportRun)
      → ((r : AmazonReportRun) → is_open r.status ≡ false → p r ≡ false)
      → All (IsIdle id) rs
      → select p rs ≡ []
  select-idle p [] shut h = refl
  select-idle p (r ∷ rs) shut h = rw (shut r h.0.1) (select-idle p rs shut h.1)

  select-among :
      (p : AmazonReportRun → Bool) (q : AmazonReportRun) (rs : List AmazonReportRun)
      → ((r : AmazonReportRun) → is_open r.status ≡ false → p r ≡ false)
      → All (IsIdle id) rs
      → p q ≡ true
      → select p (rs ++ q ∷ after) ≡ q ∷ []
  select-among p q [] shut h hit = rw (hit, select-idle p after shut idle_after) refl
  select-among p q (r ∷ rs) shut h hit = rw (shut r h.0.1) (select-among p q rs shut h.1 hit)

  -- The row of the run is `q`, and the connections are these.
  abbrev pub Placed : List AmazonConnection → AmazonReportRun → MarketplaceDb → Type 0
  Placed cs q db = (db.runs ≡ before ++ q ∷ after) × (db.connections ≡ cs) × (q.id ≡ id)

  pub Placed-At :
      (cs : List AmazonConnection) (q : AmazonReportRun) (db : MarketplaceDb)
      → Placed cs q db
      → At id q db
  Placed-At cs q db (runs, links, own) =
      ap (λ rs. find? (is_run id) rs) runs ∙ find-among q before idle own

  abbrev Somewhere : List AmazonConnection → MarketplaceDb → Type 0
  Somewhere cs db = (q : AmazonReportRun) × Placed cs q db

  Step-Somewhere :
      (cs : List AmazonConnection) (a b : MarketplaceDb)
      → Step id a b
      → Somewhere cs a
      → Somewhere cs b
  unfolding mark_document_import
  Step-Somewhere cs a b (wrote f status message writes e) (q, (runs, links, own)) =
      subst (Somewhere cs) (append_run_event-eq-ok (update_run id f a) id status message e) (
        f q,
        (
          ap (λ rs. update_where (is_run id) f rs) runs ∙ update-among f q before idle own,
          links,
          (writes q).0 ∙ own,
        ),
      )
  Step-Somewhere cs a b (observed o e) at =
      subst (Somewhere cs) (record_transport_observation-eq-ok a o e) at
  Step-Somewhere cs a b (marked version outcome message) at = at
  Step-Somewhere cs a b (kept new e) at = elim (keep_document-eq-ok a new e) [
    | inl same ↦ subst (Somewhere cs) same at
    | inr (fresh, same) ↦ subst (Somewhere cs) same at
  ]
  Step-Somewhere cs a b (measured new metrics e) (q, (runs, links, own)) =
      let (rows, log, documents, connections) = keep_snapshot-SameCore a new metrics e in
      (q, (sym rows ∙ runs, sym connections ∙ links, own))
  Step-Somewhere cs a b (ordered now new_id run) (q, (runs, links, own)) =
      let (rows, log, documents, connections) = enqueue_delta_analysis-SameCore a now new_id run in
      (q, (sym rows ∙ runs, sym connections ∙ links, own))

  -- The writes for the run leave its row in its place.
  pub Steps-Placed :
      (cs : List AmazonConnection) (q r : AmazonReportRun) (a b : MarketplaceDb)
      → Steps id a b
      → Placed cs q a
      → At id r b
      → Placed cs r b
  Steps-Placed cs q r a b chain at there =
      let (x, placed) = Steps-keep (Somewhere cs) (Step-Somewhere cs) chain (q, at) in
      subst (λ y. Placed cs y b) (some_injective (sym (Placed-At cs x b placed) ∙ there)) placed

  -- The claim of the run, for the database and the run that is handed out.
  abbrev pub taken : ℕ → AmazonReportRun → MarketplaceDb → MarketplaceDb
  taken now q db = record db { runs = before ++ claimed now q ∷ after }

  release-among :
      (now : ℕ) (q : AmazonReportRun) (rs : List AmazonReportRun)
      → All (IsIdle id) rs
      → q.locked_at ≡ none
      → release_lapsed now (rs ++ q ∷ after) ≡ rs ++ q ∷ after
  unfolding release_lapsed
  release-among now q [] h free = rw (release-idle id now after idle_after) (ground (arith, free))
  release-among now q (r ∷ rs) h free = rw (release-among now q rs h.1 free) (ground (arith, h.0.1))

  claim-idle :
      (now : ℕ) (q : AmazonReportRun) (rs : List AmazonReportRun)
      → All (IsIdle id) rs
      → q.id ≡ id
      → update_where (is_among (q ∷ [])) (claimed now) rs ≡ rs
  claim-idle now q [] h own = refl
  claim-idle now q (r ∷ rs) h own = rw (claim-idle now q rs h.1 own) (ground (arith, h.0.0, own))

  claim-among :
      (now : ℕ) (q : AmazonReportRun) (rs : List AmazonReportRun)
      → All (IsIdle id) rs
      → q.id ≡ id
      → update_where (is_among (q ∷ [])) (claimed now) (rs ++ q ∷ after)
        ≡ rs ++ claimed now q ∷ after
  claim-among now q [] h own = rw (claim-idle now q after idle_after own) (ground arith)
  claim-among now q (r ∷ rs) h own = rw (claim-among now q rs h.1 own) (ground (arith, h.0.0, own))

  -- The claim of a run that is due, and the loop over what it hands out, are one step for the run.
  pub work_runs-taken :
      (means : Means) (s : Surroundings) (c : AmazonConnection) (cs : List AmazonConnection)
      (now : ℕ) (skipped : ℕ → Bool) (q : AmazonReportRun) (db : MarketplaceDb)
      → Placed cs q db
      → find? (is_connection q.order.connection_id) cs ≡ some c
      → is_open q.status ≡ true
      → q.locked_at ≡ none
      → q.next_attempt_at ≤ now
      → skipped id ≡ false
      → work_runs (λ n. means) (λ n. s) db now skipped
        ≡ process_run means s (taken now q db) now (with_connection (claimed now q) c)
  unfolding work_runs claim_due_runs selected process_runs
  work_runs-taken means s c cs now skipped q db (runs, links, own) linked opened free due seen =
      rw
        (
          runs,
          release-among now q before idle free,
          select-among (is_due now skipped) q before (λ r shut. ground (arith, shut)) idle
              (ground (arith, opened, free, due, own, seen)),
          links,
          linked,
          claim-among now q before idle own,
        )
        refl
