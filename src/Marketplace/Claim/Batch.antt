-- ===== src/Marketplace/Claim/Batch.antt =====
-- What a claim hands to the worker.
use essentials_merchant.Base.{
  ℕ, ℤ, suc, min, ◌+◌, ◌*◌, ◌≡◌, refl, ap, inl, inr, Bool, true, false, not, ◌&&◌, Option, none,
  some, List, [], ◌∷◌, map, arith, ◌==◌, leb, ltb, any, select, take, length, length-map,
  length-take, length-select, length-sort_by, count_where, find?, All, All-map, All-take,
  All-select, All-map_image, All-sort_by, sort_by, clamp, Bool-cases, Option-cases,
}
use essentials_merchant.Marketplace.{
  MarketplaceDb, AmazonConnection, AmazonReportRun, ClaimedReportRun, is_open,
}
use essentials_merchant.Marketplace.Runs.{second}
use essentials_merchant.Marketplace.Queue.{is_connection}
use essentials_merchant.Marketplace.Claim.{
  claim_due_runs, joined, claimed, selected, is_due, due_before, release_lapsed, is_lapsed,
  released,
}

-- No lock and the time of the next attempt reached, or a lock of more than five minutes.
abbrev pub is_free : ℕ → ℕ → Option ℕ → Bool
is_free now next none = leb next now
is_free now next (some t) = ltb (t + 300 * second) now

abbrev pub is_waiting : ℕ → (ℕ → Bool) → AmazonReportRun → Bool
is_waiting now skipped r =
    is_open r.status && is_free now r.next_attempt_at r.locked_at && not (skipped r.id)

-- The claimed run is this row, with one attempt more.
abbrev pub is_claim_of : ℕ → (ℕ → Bool) → ClaimedReportRun → AmazonReportRun → Bool
is_claim_of now skipped c r =
    c.id == r.id && c.attempts == r.attempts + 1 && is_waiting now skipped r

-- The run refers to a connection.
abbrev pub HasConnection : List AmazonConnection → AmazonReportRun → Type 0
HasConnection cs r = any (is_connection r.order.connection_id) cs ≡ true

module _ (now : ℕ) (skipped : ℕ → Bool) where
  due-released :
      (r : AmazonReportRun) (lock : Option ℕ)
      → r.locked_at ≡ lock
      → (is_lapsed now r ≡ true → is_due now skipped (released now r) ≡ is_waiting now skipped r)
        × (is_lapsed now r ≡ false → is_due now skipped r ≡ is_waiting now skipped r)
  due-released r none lock = ((λ h. ground (arith, lock, h)), (λ h. ground (arith, lock, h)))
  due-released r (some t) lock = ((λ h. ground (arith, lock, h)), (λ h. ground (arith, lock, h)))

  count-release :
      (rs : List AmazonReportRun)
      → count_where (is_due now skipped) (release_lapsed now rs)
        ≡ count_where (is_waiting now skipped) rs
  unfolding release_lapsed
  count-release [] = refl
  count-release (r ∷ rs) =
      let (lapsed, held) = due-released r r.locked_at refl in
      elim (Bool-cases (is_lapsed now r)) [
        | inl late ↦ rw (late, lapsed late, count-release rs) refl
        | inr early ↦ rw (early, held early, count-release rs) refl
      ]

  abbrev is_row_of : AmazonReportRun → AmazonReportRun → Bool
  is_row_of a r = a.id == r.id && a.attempts == r.attempts && is_waiting now skipped r

  -- A row after the release that is due was waiting before it.
  abbrev IsReady : List AmazonConnection → List AmazonReportRun → AmazonReportRun → Type 0
  IsReady cs rs a = HasConnection cs a × (is_due now skipped a ≡ true → any (is_row_of a) rs ≡ true)

  here-IsReady :
      (cs : List AmazonConnection) (r : AmazonReportRun) (rs : List AmazonReportRun)
      → HasConnection cs r
      → All (IsReady cs (r ∷ rs)) (release_lapsed now (r ∷ []))
  unfolding release_lapsed
  here-IsReady cs r rs linked =
      let (lapsed, held) = due-released r r.locked_at refl in
      elim (Bool-cases (is_lapsed now r)) [
        | inl late ↦ rw late ((linked, (λ due. ground (arith, lapsed late, due))), tt)
        | inr early ↦ rw early ((linked, (λ due. ground (arith, held early, due))), tt)
      ]

  release-IsReady :
      (cs : List AmazonConnection) (rs : List AmazonReportRun)
      → All (HasConnection cs) rs
      → All (IsReady cs rs) (release_lapsed now rs)
  unfolding release_lapsed
  release-IsReady cs [] h = tt
  release-IsReady cs (r ∷ rs) h = (
    (here-IsReady cs r rs h.0).0,
    All-map (IsReady cs rs) (IsReady cs (r ∷ rs)) (release_lapsed now rs)
        (λ a ready. (ready.0, (λ due. ground (arith, ready.1 due)))) (release-IsReady cs rs h.1),
  )

  -- What holds of a row that the claim marks.
  abbrev IsChosen : List AmazonConnection → List AmazonReportRun → AmazonReportRun → Type 0
  IsChosen cs rs a =
      HasConnection cs a
      × (any (λ r. a.id == r.id && a.attempts == r.attempts + 1 && is_waiting now skipped r) rs
          ≡ true)

  counted :
      (a : AmazonReportRun) (rs : List AmazonReportRun)
      → any (is_row_of a) rs ≡ true
      → any (λ r. a.id == r.id && a.attempts + 1 == r.attempts + 1 && is_waiting now skipped r) rs
        ≡ true
  counted a [] h = h
  counted a (r ∷ rs) h = ground (arith, h, counted a rs)

  joined-IsClaim :
      (cs : List AmazonConnection) (rows rs : List AmazonReportRun)
      → All (IsChosen cs rows) rs
      → (length (joined cs rs) ≡ length rs)
        × All (λ c. any (is_claim_of now skipped c) rows ≡ true) (joined cs rs)
  joined-IsClaim cs rows [] h = (refl, tt)
  joined-IsClaim cs rows (r ∷ rs) h =
      let (same, claims) = joined-IsClaim cs rows rs h.1 in
      elim (Option-cases (find? (is_connection r.order.connection_id) cs)) [
        | inl lost ↦
            absurd (ground (arith, lost, h.0.0, found (is_connection r.order.connection_id) cs))
        | inr (c, linked) ↦ rw linked (ap suc same, (h.0.1, claims))
      ]
    where
      found :
          (p : AmazonConnection → Bool) (cs : List AmazonConnection)
          → find? p cs ≡ none
          → any p cs ≡ false
      found p [] e = refl
      found p (c ∷ cs) e = ground (arith, e, found p cs)

-- When every run refers to a connection, a claim hands out as many runs as its limit, clamped to 1
-- to 25, and the number of waiting runs allow, each with one attempt more than a row that was
-- waiting. A run waits that is open, not locked by another transaction, and either unlocked and due
-- or locked for more than five minutes.
pub claim_due_runs-TakesWaiting :
    (db : MarketplaceDb) (now : ℕ) (skipped : ℕ → Bool) (limit : ℤ)
    → All (HasConnection db.connections) db.runs
    → let batch = (claim_due_runs db now skipped limit).0 in
      (length batch ≡ min (clamp 1 25 limit) (count_where (is_waiting now skipped) db.runs))
      × All (λ c. any (is_claim_of now skipped c) db.runs ≡ true) batch
unfolding claim_due_runs selected
claim_due_runs-TakesWaiting db now skipped limit linked =
    let cs = db.connections in
    let free = release_lapsed now db.runs in
    let due = select (is_due now skipped) free in
    let n = clamp 1 25 limit in
    let chosen = take n (sort_by due_before due) in
    let marked : All (IsChosen now skipped cs db.runs) (map (claimed now) chosen) =
      All-map_image (IsChosen now skipped cs db.runs) (claimed now) chosen (
        All-take _ n (sort_by due_before due) (
          All-sort_by due_before _ due (
            All-select (IsReady now skipped cs db.runs) _ (is_due now skipped) free
              (λ a ready hit. (ready.0, counted now skipped a db.runs (ready.1 hit)))
              (release-IsReady now skipped cs db.runs linked)))) in
    let (same, claims) = joined-IsClaim now skipped cs db.runs (map (claimed now) chosen) marked in
    (
      omega (
        arith,
        same,
        length-map (claimed now) chosen,
        length-take n (sort_by due_before due),
        length-sort_by due_before due,
        length-select (is_due now skipped) free,
        count-release now skipped db.runs,
      ),
      claims,
    )
