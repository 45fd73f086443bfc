-- ===== src/Marketplace/Claim/Exclusive.antt =====
-- That no run is in two hands within the lease.
use essentials_merchant.Base.{
  ℕ, ℤ, ◌+◌, ◌*◌, ◌≤◌, ◌≡◌, refl, ◌∙◌, ap, inl, inr, Bool, true, false, ◌||◌, Option, none, some,
  List, [], ◌∷◌, map, arith, ◌==◌, any, select, update_where, take, find?, All, All-intro, All-take,
  All-select, All-update_where, All-update_cases, All-sort_by, sort_by, clamp, Bool-cases,
}
use essentials_merchant.Marketplace.{
  MarketplaceDb, AmazonConnection, AmazonReportRun, ClaimedReportRun, is_run,
}
use essentials_merchant.Marketplace.Runs.{second}
use essentials_merchant.Marketplace.Queue.{is_connection}
use essentials_merchant.Marketplace.Claim.{
  claim_due_runs, joined, claimed, selected, is_due, is_among, due_before, release_lapsed,
  is_lapsed, released, put_joined,
}

abbrev pub is_handed : ℕ → ClaimedReportRun → Bool
is_handed id c = c.id == id

any-put_joined :
    (id : ℕ) (r : AmazonReportRun) (c : Option AmazonConnection) (rest : List ClaimedReportRun)
    → is_run id r ≡ false
    → any (is_handed id) rest ≡ false
    → any (is_handed id) (put_joined r c rest) ≡ false
any-put_joined id r none rest other h = h
any-put_joined id r (some c) rest other h = ground (arith, other, h)

module _ (cs : List AmazonConnection) where
  any-joined :
      (id : ℕ) (rs : List AmazonReportRun)
      → any (is_run id) rs ≡ false
      → any (is_handed id) (joined cs rs) ≡ false
  any-joined id [] h = refl
  any-joined id (r ∷ rs) h =
      any-put_joined id r (find? (is_connection r.order.connection_id) cs) (joined cs rs)
        (ground (arith, h)) (any-joined id rs (ground (arith, h)))

-- A row of the chosen ids has been locked since `t`.
abbrev IsHeld : List AmazonReportRun → ℕ → AmazonReportRun → Type 0
IsHeld chosen t r = is_among chosen r ≡ true → r.locked_at ≡ some t

claimed-IsHeld :
    (chosen : List AmazonReportRun) (t : ℕ) (rs : List AmazonReportRun)
    → All (IsHeld chosen t) (update_where (is_among chosen) (claimed t) rs)
claimed-IsHeld chosen t rs =
    All-update_cases (λ (r : AmazonReportRun). Unit {0}) (IsHeld chosen t) (is_among chosen)
      (claimed t) rs (λ r _ hit among. refl) (λ r _ miss among. cc) (All-intro _ (λ r. tt) rs)

-- Within the lease the row is not given back.
release-IsHeld :
    (chosen rs : List AmazonReportRun) (t now : ℕ)
    → now ≤ t + 300 * second
    → All (IsHeld chosen t) rs
    → All (IsHeld chosen t) (release_lapsed now rs)
unfolding release_lapsed
release-IsHeld chosen rs t now early h =
    All-update_where (IsHeld chosen t) (is_lapsed now) (released now) rs
      (λ r held lapsed among. absurd (still_held r (held among) lapsed)) h
  where
    still_held : (r : AmazonReportRun) → r.locked_at ≡ some t → is_lapsed now r ≡ true → ⊥
    still_held r held lapsed = ground (arith, held, early)

not_due :
    (chosen : List AmazonReportRun) (t now : ℕ) (skipped : ℕ → Bool) (r : AmazonReportRun)
    → IsHeld chosen t r
    → is_due now skipped r ≡ true
    → is_among chosen r ≡ false
not_due chosen t now skipped r held due = elim (Bool-cases (is_among chosen r)) [
  | inl among ↦ ground (arith, held among)
  | inr other ↦ other
]

any-claimed :
    (id now : ℕ) (rs : List AmazonReportRun)
    → any (is_run id) (map (claimed now) rs) ≡ any (is_run id) rs
any-claimed id now [] = refl
any-claimed id now (r ∷ rs) = ap (λ (b : Bool). is_run id r || b) (any-claimed id now rs)

apart :
    (id : ℕ) (chosen rs : List AmazonReportRun)
    → any (is_run id) chosen ≡ true
    → All (λ r. is_among chosen r ≡ false) rs
    → any (is_run id) rs ≡ false
apart id chosen [] h a = refl
apart id chosen (r ∷ rs) h a = elim (Bool-cases (is_run id r)) [
  | inl same ↦ absurd (clash (ground arith))
  | inr other ↦ rw other (apart id chosen rs h a.1)
]
  where
    clash : r.id ≡ id → ⊥
    clash same = cc (ap (λ (k : ℕ). any (is_run k) chosen) same, h, a.0)

handed-among :
    (cs : List AmazonConnection) (id now : ℕ) (chosen : List AmazonReportRun)
    → any (is_handed id) (joined cs (map (claimed now) chosen)) ≡ true
    → any (is_run id) chosen ≡ true
handed-among cs id now chosen h = elim (Bool-cases (any (is_run id) chosen)) [
  | inl there ↦ there
  | inr absent ↦
      absurd
        (cc (any-joined cs id (map (claimed now) chosen) (any-claimed id now chosen ∙ absent), h))
]

-- A run that one claim hands out is not handed out again by a claim within five minutes on the
-- database that the first one leaves, whatever the limits of the two are.
pub claim_due_runs-exclusive :
    (db : MarketplaceDb) (t now : ℕ) (skipped skipped' : ℕ → Bool) (limit limit' : ℤ) (id : ℕ)
    → now ≤ t + 300 * second
    → let (batch, after) = claim_due_runs db t skipped limit in
      any (is_handed id) batch ≡ true
      → any (is_handed id) (claim_due_runs after now skipped' limit').0 ≡ false
unfolding claim_due_runs selected
claim_due_runs-exclusive db t now skipped skipped' limit limit' id early h =
    let chosen = selected t skipped limit (release_lapsed t db.runs) in
    let after = update_where (is_among chosen) (claimed t) (release_lapsed t db.runs) in
    let due = select (is_due now skipped') (release_lapsed now after) in
    let n = clamp 1 25 limit' in
    any-joined db.connections id (map (claimed now) (take n (sort_by due_before due))) (
      any-claimed id now (take n (sort_by due_before due))
      ∙ apart id chosen (take n (sort_by due_before due))
          (handed-among db.connections id t chosen h)
          (All-take _ n (sort_by due_before due) (
            All-sort_by due_before _ due (
              All-select (IsHeld chosen t) _ (is_due now skipped') (release_lapsed now after)
                (λ r held hit. not_due chosen t now skipped' r held hit)
                (release-IsHeld chosen after t now early
                  (claimed-IsHeld chosen t (release_lapsed t db.runs)))))))
