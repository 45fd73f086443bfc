-- ===== src/Worker/Liveness/Stages.antt =====
-- The stages of a run under a client that answers.
use essentials_merchant.Base.{
  suc, ℕ, String, false, Option, none, some, List, [], ◌∷◌, ◌≡◌, refl, sym, ◌∙◌, subst, ap, inl,
  inr, arith, find?, any, Bool-cases, Result, Result-cases, ok, err, ◌>>=◌, find?-update_same,
  any-eq-true,
}
use essentials_merchant.Marketplace.{
  StoredObservation, MarketplaceDb, AmazonConnection, AmazonReportRun, ClaimedReportRun, Order,
  RunStatus, StoreError, ArchivedDocument, Bytes, ParsedSnapshot, is_run,
}
use essentials_merchant.Marketplace.Runs.{
  record_transport_observation, append_run_event, update_run, set_run_request_created,
  mark_run_requesting, set_run_document_ready, request_created, requesting_since, document_ready,
}
use essentials_merchant.Marketplace.Documents.{
  mark_document_import, document_of, is_document_of, archive_document, keep_document, archive_kept,
  new_document, load_document_for_parsing,
}
use essentials_merchant.Marketplace.Snapshots.{
  snapshot_stored, store_snapshot, new_snapshot, has_clash,
}
use essentials_merchant.Marketplace.Steps.{
  record_transport_observation-eq-ok, IsStatusWrite, keep_document-fresh, keep_snapshot_total,
  keep_snapshot-SameCore,
}
use essentials_merchant.Marketplace.Claim.{with_connection}
use essentials_merchant.Worker.{
  AmazonTransportObservation, AmazonReportStatus, AmazonReportDocument, parse_report, decompress,
  content_type_for,
}
use essentials_merchant.Worker.Failure.{
  Means, Write, marks_requesting, ends_step, settle, record_observations, stored,
}
use essentials_merchant.Worker.Process.{
  last, seen_first, seen_second, request_of, request_report, take_created, poll_report, poll,
  take_polled, take_status, download_report, fetch, take_document, take_downloaded, archive,
  parse_archive, parse, parse_loaded, take_parsed, take_stored, write_snapshot,
}
use essentials_merchant.Worker.Progress.{At, write-At, SameCore-At, record_observations-At}
use essentials_merchant.Worker.Progress.Parsing.{store_snapshot-At}

-- Without a lock, and due since `now`.
abbrev pub Rests : ℕ → AmazonReportRun → Type 0
Rests now r = (r.locked_at ≡ none) × (r.next_attempt_at ≡ now)

module _ (means : Means) (c : AmazonConnection) (order : Order) (report_id document_id : String)
    (document : AmazonReportDocument) (content : Bytes) (parsed : ParsedSnapshot)
    (reached : (w : Write) → means.refusal w ≡ none) where
  -- The row of the run has this status, and this is archived for it.
  abbrev pub HasStage :
      ℕ → RunStatus → (AmazonReportRun → Type 0) → Option ArchivedDocument → MarketplaceDb → Type 0
  HasStage id status P kept db =
      (q : AmazonReportRun) × At id q db
      × (q.order ≡ order)
      × (q.status ≡ status)
      × P q
      × (document_of id db ≡ kept)

  pub At-id :
      (id : ℕ) (q : AmazonReportRun) (rs : List AmazonReportRun)
      → find? (is_run id) rs ≡ some q
      → q.id ≡ id
  At-id id q [] e = cc
  At-id id q (r ∷ rs) e = ground (arith, At-id id q rs)

  observe-documents :
      (refused : Option StoreError) (db : MarketplaceDb) (o : StoredObservation)
      → (settle refused db (record_transport_observation db o)).documents ≡ db.documents
  observe-documents refused db o = settled refused (record_transport_observation db o) (λ db' e.
      ap (λ (d : MarketplaceDb). d.documents) (sym (record_transport_observation-eq-ok db o e)))
    where
      settled :
          (refused : Option StoreError) (w : Result StoreError MarketplaceDb)
          → ((db' : MarketplaceDb) → w ≡ ok db' → db'.documents ≡ db.documents)
          → (settle refused db w).documents ≡ db.documents
      settled (some e) w same = refl
      settled none (ok db') same = same db' refl
      settled none (err e) same = refl

  record_observations-documents :
      (unseen : ℕ → Option StoreError) (os : List AmazonTransportObservation) (id : ℕ)
      (db : MarketplaceDb)
      → (record_observations unseen db id os).documents ≡ db.documents
  unfolding record_observations
  record_observations-documents unseen [] id db = refl
  record_observations-documents unseen (o ∷ os) id db =
      record_observations-documents (λ n. unseen (suc n)) os id
        (settle (unseen 0) db (record_transport_observation db (stored id o)))
      ∙ observe-documents (unseen 0) db (stored id o)

  observed-document :
      (unseen : ℕ → Option StoreError) (os : List AmazonTransportObservation) (id : ℕ)
      (db : MarketplaceDb) (kept : Option ArchivedDocument)
      → document_of id db ≡ kept
      → document_of id (record_observations unseen db id os) ≡ kept
  unfolding document_of
  observed-document unseen os id db kept held =
      ap (λ ds. find? (is_document_of id) ds) (record_observations-documents unseen os id db) ∙ held

  append-documents :
      (refused : Option StoreError) (base db : MarketplaceDb) (id : ℕ) (status : RunStatus)
      (message : Option String)
      → refused ≡ none
      → base.documents ≡ db.documents
      → (settle refused base (append_run_event db id status message)).documents ≡ db.documents
  unfolding append_run_event
  append-documents refused base db id status message accepted same =
      elim (Bool-cases (any (is_run id) db.runs)) [
        | inl there ↦ rw (accepted, there) refl
        | inr absent ↦ rw (accepted, absent) same
      ]

  -- The stage after a status write.
  write-Stage :
      (id : ℕ) (q : AmazonReportRun) (base db : MarketplaceDb) (kept : Option ArchivedDocument)
      (f : AmazonReportRun → AmazonReportRun) (status : RunStatus) (message : Option String)
      (P : AmazonReportRun → Type 0) (w : Write)
      → IsStatusWrite f status
      → (f q).order ≡ order
      → P (f q)
      → At id q db
      → base.documents ≡ db.documents
      → document_of id db ≡ kept
      → HasStage id status P kept
          (settle (means.refusal w) base (append_run_event (update_run id f db) id status message))
  unfolding document_of
  write-Stage id q base db kept f status message P w writes same good here docs there = (
    f q,
    write-At id q base db f status message (reached w) writes here,
    same,
    (writes q).1,
    good,
    ap (λ ds. find? (is_document_of id) ds)
          (append-documents (means.refusal w) base (update_run id f db) id status message
            (reached w) docs)
        ∙ there,
  )

  append-eq :
      (db : MarketplaceDb) (id : ℕ) (q : AmazonReportRun) (status : RunStatus)
      (message : Option String)
      → At id q db
      → append_run_event db id status message
        ≡ ok (record db {
          log = record { run_id = id; status = status; message = message } ∷ db.log;
        })
  unfolding append_run_event
  append-eq db id q status message here = rw (any-eq-true (is_run id) db.runs q here) refl

  pub request_report-Stage :
      (now : ℕ) (q : AmazonReportRun) (db : MarketplaceDb) (kept : Option ArchivedDocument)
      (os : List AmazonTransportObservation)
      → means.client.create_report (request_of (with_connection q c))
        ≡ ok (record { value = report_id; observations = os })
      → At q.id q db
      → q.order ≡ order
      → document_of q.id db ≡ kept
      → HasStage q.id RunStatus.polling
          (λ r. (r.amazon_report_id ≡ some report_id) × Rests now r)
          kept
          (request_report means db now (with_connection q c))
  unfolding request_report take_created mark_run_requesting set_run_request_created
  request_report-Stage now q db kept os created here same documents =
      let begun = settle (means.refusal marks_requesting) db (mark_run_requesting db now q.id) in
      let (r, there, ordered, status, done, held) =
        write-Stage q.id q db db kept (requesting_since now) RunStatus.requesting
          (some "Submitting createReport request") (λ r. r ≡ requesting_since now q)
          marks_requesting (λ x. (refl, refl)) same refl here refl documents in
      let seen = record_observations (seen_first means) begun q.id os in
      rw (created, request_report, take_created)
        (write-Stage q.id r seen seen kept (request_created now report_id) RunStatus.polling
          (some "Amazon report request accepted")
          (λ r. (r.amazon_report_id ≡ some report_id) × Rests now r) ends_step (λ x. (refl, refl))
          ordered (refl, (refl, refl))
          (record_observations-At q.id r (seen_first means) os begun there) refl
          (observed-document (seen_first means) os q.id begun kept held))

  pub poll_report-Stage :
      (now : ℕ) (q : AmazonReportRun) (db : MarketplaceDb) (kept : Option ArchivedDocument)
      (os : List AmazonTransportObservation)
      → means.client.get_report (request_of (with_connection q c)) report_id
        ≡ ok (record { value = AmazonReportStatus.done document_id; observations = os })
      → At q.id q db
      → q.order ≡ order
      → q.amazon_report_id ≡ some report_id
      → document_of q.id db ≡ kept
      → HasStage q.id RunStatus.downloading
          (λ r. (r.amazon_report_document_id ≡ some document_id) × Rests now r)
          kept
          (poll_report means db now (with_connection q c))
  unfolding poll_report poll take_polled take_status set_run_document_ready
  poll_report-Stage now q db kept os polled here same asked documents =
      let run = with_connection q c in
      let seen = record_observations (seen_first means) db q.id os in
      let Located =
        λ (r : AmazonReportRun). (r.amazon_report_document_id ≡ some document_id) × Rests now r in
      subst (HasStage q.id RunStatus.downloading Located kept)
        (sym (ap (poll means db now run) asked ∙ ap (take_polled means db now run) polled))
        (write-Stage q.id q seen seen kept (document_ready now document_id) RunStatus.downloading
          (some "Amazon report document is ready") Located ends_step (λ x. (refl, refl)) same
          (refl, (refl, refl)) (record_observations-At q.id q (seen_first means) os db here) refl
          (observed-document (seen_first means) os q.id db kept documents))

  pub download_report-Stage :
      (now : ℕ) (q : AmazonReportRun) (db : MarketplaceDb) (decoded : Bytes)
      (os os' : List AmazonTransportObservation)
      → means.client.get_report_document (request_of (with_connection q c)) document_id
        ≡ ok (record { value = document; observations = os })
      → means.client.download_document document
        ≡ ok (record { value = content; observations = os' })
      → decompress means.gunzip content document.compression_algorithm ≡ ok decoded
      → At q.id q db
      → q.order ≡ order
      → q.amazon_report_document_id ≡ some document_id
      → document_of q.id db ≡ none
      → (d : ArchivedDocument) × (d.decoded_content ≡ decoded)
        × HasStage q.id RunStatus.parsing
            (λ r. Unit {0} × Rests now r)
            (some d)
            (download_report means db now (with_connection q c))
  unfolding download_report fetch take_document take_downloaded archive archive_document
      keep_document document_of
  download_report-Stage now q db decoded os os' found downloaded opened here same asked fresh =
      let run = with_connection q c in
      let first = record_observations (seen_first means) db q.id os in
      let seen = record_observations (seen_second means) first q.id os' in
      let first_here = record_observations-At q.id q (seen_first means) os db here in
      let seen_here = record_observations-At q.id q (seen_second means) os' first first_here in
      let seen_fresh =
        observed-document (seen_second means) os' q.id first none
          (observed-document (seen_first means) os q.id db none fresh) in
      let new =
        new_document means.sha256 q.id document.document_id
          (some (content_type_for q.order.report_type)) document.compression_algorithm content
          decoded in
      let base : MarketplaceDb = record seen { documents = new ∷ seen.documents } in
      let message : Option String = some "Raw report archived with SHA-256 checksum" in
      let store = λ (held : MarketplaceDb).
        append_run_event (update_run q.id (archive_kept now) held) q.id RunStatus.parsing message in
      let held : Path MarketplaceDb (download_report means db now run)
          (settle none seen (store base)) =
        ap (fetch means db now run) asked
        ∙ ap (take_document means db now run) found
        ∙ ap (take_downloaded means first now run document) downloaded
        ∙ ap (archive means seen now run document content) opened
        ∙ ap (λ w. settle (last means) seen (w >>= store)) (keep_document-fresh seen new seen_fresh)
        ∙ ap (λ o. settle o seen (store base)) (reached ends_step) in
      (
        new,
        refl,
        (
          archive_kept now q,
          subst (At q.id (archive_kept now q)) (sym held) (
              write-At q.id q seen base (archive_kept now) RunStatus.parsing message refl
                (λ x. (refl, refl)) seen_here),
          same,
          refl,
          (tt, (refl, refl)),
          ap (document_of q.id) held
              ∙ ap (λ w. document_of q.id (settle none seen w))
                  (append-eq (update_run q.id (archive_kept now) base) q.id (archive_kept now q)
                    RunStatus.parsing message
                    (find?-update_same (is_run q.id) (archive_kept now) seen.runs q (λ x. refl)
                      seen_here))
              ∙ first_found new seen.documents,
        ),
      )
    where
      first_found :
          (d : ArchivedDocument) (ds : List ArchivedDocument)
          → find? (is_document_of d.run_id) (d ∷ ds) ≡ some d
      first_found d ds = ground arith

  store_snapshot_total :
      (now : ℕ) (q : AmazonReportRun) (db : MarketplaceDb)
      → has_clash parsed.metrics ≡ false
      → At q.id q db
      → (db' : MarketplaceDb) × (store_snapshot db now means.snapshot_id means.job_id
            (with_connection q c)
            parsed
          ≡ ok db')
  unfolding store_snapshot mark_document_import
  store_snapshot_total now q db distinct here =
      let run = with_connection q c in
      let (held, put) =
        keep_snapshot_total db (new_snapshot now means.snapshot_id run parsed) parsed.metrics
          distinct in
      let there =
        SameCore-At q.id q db held (keep_snapshot-SameCore db _ parsed.metrics put) here in
      let marked = mark_document_import held q.id (some parsed.parser_version) "parsed" none in
      let logged =
        append-eq (update_run q.id (snapshot_stored now) marked) q.id (snapshot_stored now q)
          RunStatus.analysing (some "Normalized metric snapshot stored")
          (find?-update_same (is_run q.id) (snapshot_stored now) held.runs q (λ x. refl) there) in
      elim (Result-cases (store_snapshot db now means.snapshot_id means.job_id run parsed)) [
        | inl good ↦ good
        | inr (refused, e) ↦ absurd (fails (rw logged at (rw (store_snapshot, put) at e)))
      ]
    where
      fails :
          {a : MarketplaceDb} {e : StoreError}
          → ◌≡◌ {A = Result StoreError MarketplaceDb} (ok a) (err e)
          → ⊥
      fails h = cc

  pub parse_archive-Stage :
      (now : ℕ) (q : AmazonReportRun) (db : MarketplaceDb) (decoded : Bytes) (d : ArchivedDocument)
      → means.archive_outage ≡ none
      → means.snapshot_outage ≡ none
      → has_clash parsed.metrics ≡ false
      → ((run : ClaimedReportRun)
          → run.order ≡ order
          → parse_report means.parsers run decoded ≡ ok (some parsed))
      → At q.id q db
      → q.order ≡ order
      → document_of q.id db ≡ some d
      → d.decoded_content ≡ decoded
      → (r : AmazonReportRun) × At q.id r (parse_archive means db now (with_connection q c))
        × (r.status ≡ RunStatus.analysing)
  unfolding parse_archive parse parse_loaded take_parsed take_stored load_document_for_parsing
  parse_archive-Stage now q db decoded d reads writes distinct parses here same stored bytes =
      let run = with_connection q c in
      let (db', done) = store_snapshot_total now q db distinct here in
      let loaded : load_document_for_parsing db q.id ≡ some (d.amazon_report_document_id, decoded) =
        rw (load_document_for_parsing, stored, bytes) refl in
      let held : Path MarketplaceDb (parse_archive means db now run) db' =
        ap (parse means db now run) reads
        ∙ ap (parse_loaded means db now run) loaded
        ∙ ap (take_parsed means db now run) (parses run same)
        ∙ ap (λ o. take_stored means db now run (write_snapshot means o db now run parsed)) writes
        ∙ ap (take_stored means db now run) done in
      (
        snapshot_stored now q,
        subst (At q.id (snapshot_stored now q)) (sym held) (
            store_snapshot-At means now run q db db' means.snapshot_id means.job_id parsed here
              done),
        refl,
      )
