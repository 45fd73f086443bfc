-- ===== src/Worker/Liveness/Turns.antt =====
-- One round of the worker for a run in each of its stages.
use essentials_merchant.Base.{
  ℕ, ◌≤◌, Bool, String, true, false, Option, none, some, List, ◌≡◌, refl, sym, ◌∙◌, subst, ap,
  arith, ok, find?, All,
}
use essentials_merchant.Marketplace.{
  MarketplaceDb, AmazonConnection, AmazonReportRun, ClaimedReportRun, Order, RunStatus,
  ArchivedDocument, Bytes, ParsedSnapshot, is_open,
}
use essentials_merchant.Marketplace.Documents.{document_of}
use essentials_merchant.Marketplace.Queue.{is_connection}
use essentials_merchant.Marketplace.Snapshots.{has_clash}
use essentials_merchant.Marketplace.Claim.{claimed, with_connection}
use essentials_merchant.Marketplace.Steps.{Steps}
use essentials_merchant.Worker.{
  AmazonReportRequest, AmazonReportStatus, AmazonReportDocument, AmazonTransportObservation,
  parse_report, decompress,
}
use essentials_merchant.Worker.Failure.{Means, Write}
use essentials_merchant.Worker.Gate.{Surroundings, refusal}
use essentials_merchant.Worker.Process.{advance, process_run, request_of}
use essentials_merchant.Worker.Chain.Arms.{advance-Steps}
use essentials_merchant.Worker.Cycle.{work_runs}
use essentials_merchant.Worker.Progress.{At}
use essentials_merchant.Worker.Liveness.Stages.{
  HasStage, Rests, request_report-Stage, poll_report-Stage, download_report-Stage,
  parse_archive-Stage,
}
use essentials_merchant.Worker.Liveness.Claims.{
  IsIdle, Placed, Placed-At, Steps-Placed, taken, work_runs-taken,
}

module _ (means : Means) (s : Surroundings) (c : AmazonConnection) (cs : List AmazonConnection)
    (order : Order) (report_id document_id : String) (document : AmazonReportDocument)
    (content : Bytes) (parsed : ParsedSnapshot) (reached : (w : Write) → means.refusal w ≡ none)
    (passes : (db : MarketplaceDb) (now : ℕ) (q : AmazonReportRun)
      → q.order ≡ order
      → refusal s db now (with_connection q c) ≡ none)
    (linked : find? (is_connection order.connection_id) cs ≡ some c) (id : ℕ)
    (before after : List AmazonReportRun) (idle : All (IsIdle id) before)
    (idle_after : All (IsIdle id) after) (skipped : ℕ → Bool) (seen : skipped id ≡ false) where
  abbrev round : ℕ → MarketplaceDb → MarketplaceDb
  round now db = work_runs (λ n. means) (λ n. s) db now skipped

  abbrev IsPlaced : AmazonReportRun → MarketplaceDb → Type 0
  IsPlaced q db = Placed id before after idle idle_after cs q db

  -- The run is unlocked, due at `t`, and has this status, and this is archived for it.
  abbrev Stands :
      ℕ → RunStatus → (AmazonReportRun → Type 0) → Option ArchivedDocument → MarketplaceDb → Type 0
  Stands t status P kept db =
      (q : AmazonReportRun) × IsPlaced q db
      × (q.order ≡ order)
      × (q.status ≡ status)
      × P q
      × (q.locked_at ≡ none)
      × (q.next_attempt_at ≤ t)
      × (document_of id db ≡ kept)

  abbrev Stage :
      ℕ → RunStatus → (AmazonReportRun → Type 0) → Option ArchivedDocument → MarketplaceDb → Type 0
  Stage = HasStage means c order report_id document_id document content parsed reached

  abbrev step_of : ℕ → AmazonReportRun → RunStatus → MarketplaceDb → MarketplaceDb
  step_of now q status db =
      advance means (taken id before after idle idle_after now q db) now
        (with_connection (claimed now q) c) status

  round-arm :
      (now : ℕ) (q : AmazonReportRun) (db : MarketplaceDb) (status : RunStatus)
      → IsPlaced q db
      → q.order ≡ order
      → q.status ≡ status
      → is_open status ≡ true
      → q.locked_at ≡ none
      → q.next_attempt_at ≤ now
      → round now db ≡ step_of now q status db
  unfolding process_run
  round-arm now q db status placed same waiting opened free due =
      work_runs-taken id before after idle idle_after means s c cs now skipped q db placed
        (ap (λ (o : Order). find? (is_connection o.connection_id) cs) same ∙ linked)
        (ap is_open waiting ∙ opened) free due seen
      ∙ rw (passes (taken id before after idle idle_after now q db) now (claimed now q) same)
          (ap (λ x. step_of now q x db) waiting)

  -- The row and the run after the arm for its status.
  moved :
      (now : ℕ) (q r : AmazonReportRun) (db : MarketplaceDb) (status : RunStatus)
      → IsPlaced q db
      → At id r (step_of now q status db)
      → IsPlaced r (step_of now q status db)
  moved now q r db status (runs, links, own) there =
      Steps-Placed id before after idle idle_after cs (claimed now q) r
        (taken id before after idle idle_after now q db) (step_of now q status db)
        (subst
          (λ k. Steps k (taken id before after idle idle_after now q db) (step_of now q status db))
          own
          (advance-Steps means now (with_connection (claimed now q) c)
            (taken id before after idle idle_after now q db) status))
        (refl, links, own) there

  taken-At :
      (now : ℕ) (q : AmazonReportRun) (db : MarketplaceDb)
      → IsPlaced q db
      → At q.id (claimed now q) (taken id before after idle idle_after now q db)
  taken-At now q db (runs, links, own) =
      subst (λ k. At k (claimed now q) (taken id before after idle idle_after now q db)) (sym own)
        (Placed-At id before after idle idle_after cs (claimed now q)
          (taken id before after idle idle_after now q db) (refl, links, own))

  -- The stage that the arm brings is where the run stands after the round.
  round-Stands :
      (now : ℕ) (q : AmazonReportRun) (db : MarketplaceDb) (status next : RunStatus)
      (P : AmazonReportRun → Type 0) (kept : Option ArchivedDocument)
      → IsPlaced q db
      → round now db ≡ step_of now q status db
      → Stage q.id next (λ r. P r × Rests now r) kept (step_of now q status db)
      → Stands now next P kept (round now db)
  unfolding document_of
  round-Stands now q db status next P kept placed same stage =
      let (r, there, ordered, reaches, (holds, (free, due)), held) =
        subst (λ k. Stage k next (λ r. P r × Rests now r) kept (step_of now q status db)) placed.2
          stage in
      subst (Stands now next P kept) (sym same) (
        r,
        moved now q r db status placed there,
        ordered,
        reaches,
        holds,
        free,
        omega (arith, due),
        held,
      )

  abbrev Asked : AmazonReportRun → Type 0
  Asked r = r.amazon_report_id ≡ some report_id

  abbrev Located : AmazonReportRun → Type 0
  Located r = r.amazon_report_document_id ≡ some document_id

  held-taken :
      (now : ℕ) (q : AmazonReportRun) (db : MarketplaceDb) (kept : Option ArchivedDocument)
      → IsPlaced q db
      → document_of id db ≡ kept
      → document_of q.id (taken id before after idle idle_after now q db) ≡ kept
  unfolding document_of
  held-taken now q db kept (runs, links, own) held =
      subst (λ k. document_of k db ≡ kept) (sym own) held

  pub round_queued :
      (t now : ℕ) (db : MarketplaceDb)
      → t ≤ now
      → ((ask : AmazonReportRequest)
          → (os : List AmazonTransportObservation) × (means.client.create_report ask
              ≡ ok (record { value = report_id; observations = os })))
      → Stands t RunStatus.queued (λ r. Unit {0}) none db
      → Stands now RunStatus.polling Asked none (round now db)
  unfolding advance
  round_queued t now db later created (q, placed, same, waiting, _, free, due, held) =
      let run = with_connection (claimed now q) c in
      let (os, answer) = created (request_of run) in
      round-Stands now q db RunStatus.queued RunStatus.polling Asked none placed
        (round-arm now q db RunStatus.queued placed same waiting refl free
          (omega (arith, due, later)))
        (request_report-Stage means c order report_id document_id document content parsed reached
          now (claimed now q) (taken id before after idle idle_after now q db) none os answer
          (taken-At now q db placed) same (held-taken now q db none placed held))

  pub round_polling :
      (t now : ℕ) (db : MarketplaceDb)
      → t ≤ now
      → ((ask : AmazonReportRequest)
          → (os : List AmazonTransportObservation) × (means.client.get_report ask report_id
              ≡ ok (record { value = AmazonReportStatus.done document_id; observations = os })))
      → Stands t RunStatus.polling Asked none db
      → Stands now RunStatus.downloading Located none (round now db)
  unfolding advance
  round_polling t now db later polled (q, placed, same, waiting, asked, free, due, held) =
      let run = with_connection (claimed now q) c in
      let (os, answer) = polled (request_of run) in
      round-Stands now q db RunStatus.polling RunStatus.downloading Located none placed
        (round-arm now q db RunStatus.polling placed same waiting refl free
          (omega (arith, due, later)))
        (poll_report-Stage means c order report_id document_id document content parsed reached now
          (claimed now q) (taken id before after idle idle_after now q db) none os answer
          (taken-At now q db placed) same asked (held-taken now q db none placed held))

  abbrev Archived : ℕ → Bytes → MarketplaceDb → Type 0
  Archived t decoded db =
      (d : ArchivedDocument) × (d.decoded_content ≡ decoded)
      × Stands t RunStatus.parsing (λ r. Unit {0}) (some d) db

  pub round_downloading :
      (t now : ℕ) (db : MarketplaceDb) (decoded : Bytes)
      → t ≤ now
      → ((ask : AmazonReportRequest)
          → (os : List AmazonTransportObservation) × (means.client.get_report_document ask
                document_id
              ≡ ok (record { value = document; observations = os })))
      → ((os : List AmazonTransportObservation) × (means.client.download_document document
            ≡ ok (record { value = content; observations = os })))
      → decompress means.gunzip content document.compression_algorithm ≡ ok decoded
      → Stands t RunStatus.downloading Located none db
      → Archived now decoded (round now db)
  unfolding advance
  round_downloading t now db decoded later found (os', downloaded) opened
        (q, placed, same, waiting, located, free, due, held) =
      let run = with_connection (claimed now q) c in
      let (os, answer) = found (request_of run) in
      let (d, bytes, stage) =
        download_report-Stage means c order report_id document_id document content parsed reached
          now (claimed now q) (taken id before after idle idle_after now q db) decoded os os' answer
          downloaded opened (taken-At now q db placed) same located
          (held-taken now q db none placed held) in
      (
        d,
        bytes,
        round-Stands now q db RunStatus.downloading RunStatus.parsing (λ r. Unit {0}) (some d)
            placed
            (round-arm now q db RunStatus.downloading placed same waiting refl free
              (omega (arith, due, later)))
            stage,
      )

  pub round_parsing :
      (t now : ℕ) (db : MarketplaceDb) (decoded : Bytes)
      → t ≤ now
      → means.archive_outage ≡ none
      → means.snapshot_outage ≡ none
      → has_clash parsed.metrics ≡ false
      → ((run : ClaimedReportRun)
          → run.order ≡ order
          → parse_report means.parsers run decoded ≡ ok (some parsed))
      → Archived t decoded db
      → (r : AmazonReportRun) × At id r (round now db) × (r.status ≡ RunStatus.analysing)
  unfolding advance
  round_parsing t now db decoded later reads writes distinct parses
        (d, bytes, (q, placed, same, waiting, _, free, due, held)) =
      let (r, there, reaches) =
        parse_archive-Stage means c order report_id document_id document content parsed reached now
          (claimed now q) (taken id before after idle idle_after now q db) decoded d reads writes
          distinct parses (taken-At now q db placed) same (held-taken now q db (some d) placed held)
          bytes in
      let arm =
        round-arm now q db RunStatus.parsing placed same waiting refl free
          (omega (arith, due, later)) in
      (
        r,
        subst (At id r) (sym arm)
            (subst (λ k. At k r (step_of now q RunStatus.parsing db)) placed.2 there),
        reaches,
      )
