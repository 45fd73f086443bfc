-- ===== src/Outbox/Batch.antt =====
-- What a claim hands to a worker: which of the waiting events, and how many.
use essentials_merchant.Base.{
  ℕ, ℤ, zero, suc, ◌+◌, ◌≤◌, min, ◌≡◌, refl, inl, inr, Bool, true, false, not, ◌&&◌, ◌||◌, ◌==◌,
  List, [], ◌∷◌, arith, leb, any, select, count_where, take, length, length-map, length-take,
  length-select, All, All-intro, All-take, All-select, All-map, All-map_image, All-update_cases,
  clamp, Bool-cases,
}
use essentials_merchant.Outbox.{
  Event, OutboxPolicy, is_due, is_among, claimed, selected, release_lapsed, released, is_lapsed,
  is_pending, is_processing, lease_expired, sort_by_age, insert_by_age, claim_outbox_with_policy,
}
use essentials_merchant.Outbox.Claim.{length-sort_by_age, All-insert_by_age, All-sort_by_age}

-- No event is older than one that stands before it.
abbrev pub IsOldestFirst : List Event → Type 0
IsOldestFirst [] = Unit
IsOldestFirst (e ∷ es) = All (λ f. e.created_at ≤ f.created_at) es × IsOldestFirst es

insert_by_age-IsOldestFirst :
    (e : Event) (es : List Event) → IsOldestFirst es → IsOldestFirst (insert_by_age e es)
unfolding insert_by_age
insert_by_age-IsOldestFirst e [] h = (tt, tt)
insert_by_age-IsOldestFirst e (f ∷ fs) h = elim (Bool-cases (leb e.created_at f.created_at)) [
  | inl early ↦ rw early (
    (
      ground arith,
      All-map _ _ fs (λ (g : Event) (k : f.created_at ≤ g.created_at). ground arith) h.0,
    ),
    h,
  )
  | inr late ↦
      rw late (All-insert_by_age _ e fs (ground arith) h.0, insert_by_age-IsOldestFirst e fs h.1)
]

sort_by_age-IsOldestFirst : (es : List Event) → IsOldestFirst (sort_by_age es)
unfolding sort_by_age
sort_by_age-IsOldestFirst [] = tt
sort_by_age-IsOldestFirst (e ∷ es) =
    insert_by_age-IsOldestFirst e (sort_by_age es) (sort_by_age-IsOldestFirst es)

-- Pending, or in work for longer than the lease; due, and not locked by another transaction.
abbrev pub is_waiting : ℕ → ℕ → (ℕ → Bool) → Event → Bool
is_waiting now lease skipped e =
    (is_pending e.status || is_processing e.status && lease_expired now lease e.locked_at)
    && leb e.available_at now
    && not (skipped e.id)

-- The event is handed out with one attempt more than this row.
abbrev pub is_claim_of : ℕ → ℕ → (ℕ → Bool) → Event → Event → Bool
is_claim_of now lease skipped c e =
    c.id == e.id && c.attempts == e.attempts + 1 && is_waiting now lease skipped e

module _ (now : ℕ) (skipped : ℕ → Bool) (policy : OutboxPolicy) where
  abbrev lease : ℕ
  lease = clamp 1 86400 policy.lease_seconds

  due-released :
      (e : Event)
      → (is_lapsed now lease e ≡ true
          → is_due now skipped (released e) ≡ is_waiting now lease skipped e)
        × (is_lapsed now lease e ≡ false → is_due now skipped e ≡ is_waiting now lease skipped e)
  due-released e = ((λ h. ground (arith, h)), (λ h. ground (arith, h)))

  count-release :
      (es : List Event)
      → count_where (is_due now skipped) (release_lapsed now policy es)
        ≡ count_where (is_waiting now lease skipped) es
  unfolding release_lapsed
  count-release [] = refl
  count-release (e ∷ es) =
      let (lapsed, held) = due-released e in
      elim (Bool-cases (is_lapsed now lease e)) [
        | inl late ↦ ground (arith, late, lapsed late, count-release es)
        | inr early ↦ ground (arith, early, held early, count-release es)
      ]

  abbrev IsReady : List Event → Event → Type 0
  IsReady es a =
      is_due now skipped a ≡ true → any (is_claim_of now lease skipped (claimed now a)) es ≡ true

  here-IsReady :
      (e : Event) (es : List Event) → All (IsReady (e ∷ es)) (release_lapsed now policy (e ∷ []))
  unfolding release_lapsed
  here-IsReady e es =
      let (lapsed, held) = due-released e in
      elim (Bool-cases (is_lapsed now lease e)) [
        | inl late ↦ rw late ((λ due. ground (arith, lapsed late, due)), tt)
        | inr early ↦ rw early ((λ due. ground (arith, held early, due)), tt)
      ]

  release-IsReady : (es : List Event) → All (IsReady es) (release_lapsed now policy es)
  unfolding release_lapsed
  release-IsReady [] = tt
  release-IsReady (e ∷ es) = (
    (here-IsReady e es).0,
    All-map (IsReady es) (IsReady (e ∷ es)) (release_lapsed now policy es)
        (λ a ready due. ground (arith, ready due)) (release-IsReady es),
  )

module _ {κ} (P : Event → Type κ) where
  insert_by_age-All : (e : Event) (es : List Event) → All P (insert_by_age e es) → P e × All P es
  unfolding insert_by_age
  insert_by_age-All e [] h = (h.0, tt)
  insert_by_age-All e (f ∷ fs) h = elim (Bool-cases (leb e.created_at f.created_at)) [
    | inl early ↦ let k = rw early at h in (k.0, k.1)
    | inr late ↦
        let k = rw late at h in let (here, rest) = insert_by_age-All e fs k.1 in (here, (k.0, rest))
  ]

  sort_by_age-All : (es : List Event) → All P (sort_by_age es) → All P es
  unfolding sort_by_age
  sort_by_age-All [] h = tt
  sort_by_age-All (e ∷ es) h =
      let (here, rest) = insert_by_age-All e (sort_by_age es) h in (here, sort_by_age-All es rest)

select-All :
    (p : Event → Bool) (Q : Event → Type 0) (es : List Event)
    → All Q (select p es)
    → All (λ e. p e ≡ true → Q e) es
select-All p Q [] h = tt
select-All p Q (e ∷ es) h = elim (Bool-cases (p e)) [
  | inl hit ↦ let k = rw hit at h in ((λ _. k.0), select-All p Q es k.1)
  | inr miss ↦ ((λ hit. absurd (ground (arith, miss, hit))), select-All p Q es (rw miss at h))
]

-- An event is among the first `n`, or none of them is younger.
abbrev IsOlder : ℕ → List Event → Event → Type 0
IsOlder n es f = is_among (take n es) f ≡ false → All (λ e. e.created_at ≤ f.created_at) (take n es)

take-IsOlder : (n : ℕ) (es : List Event) → IsOldestFirst es → All (IsOlder n es) es
take-IsOlder zero es sorted = All-intro _ (λ f out. tt) es
take-IsOlder (suc n) [] sorted = tt
take-IsOlder (suc n) (e ∷ es) sorted =
    ((λ out. absurd (ground (arith, out))), later n e es es sorted.0 (take-IsOlder n es sorted.1))
  where
    later :
        (n : ℕ) (e : Event) (xs ys : List Event)
        → All (λ f. e.created_at ≤ f.created_at) ys
        → All (IsOlder n xs) ys
        → All (IsOlder (suc n) (e ∷ xs)) ys
    later n e xs [] old rest = tt
    later n e xs (y ∷ ys) old rest =
        ((λ out. (old.0, rest.0 (ground (arith, out)))), later n e xs ys old.1 rest.1)

-- The claim hands out as many events as its limit, clamped to 1 to 100, and the number of waiting
-- ones allow; each is one that was waiting, with one attempt more, and no event that is still due
-- afterwards is older than one of them. An event waits that is due, not locked by another
-- transaction, and either pending or in work for longer than the lease of the policy.
pub claim_outbox-TakesOldest :
    (es : List Event) (now : ℕ) (skipped : ℕ → Bool) (limit : ℤ) (policy : OutboxPolicy)
    → let lease = clamp 1 86400 policy.lease_seconds in
      let (batch, after) = claim_outbox_with_policy es now skipped limit policy in
      (length batch ≡ min (clamp 1 100 limit) (count_where (is_waiting now lease skipped) es))
      × All (λ c. any (is_claim_of now lease skipped c) es ≡ true) batch
      × All (λ e. is_due now skipped e ≡ true → All (λ c. c.created_at ≤ e.created_at) batch) after
unfolding claim_outbox_with_policy selected
claim_outbox-TakesOldest es now skipped limit policy =
    let free = release_lapsed now policy es in
    let due = select (is_due now skipped) free in
    let n = clamp 1 100 limit in
    let chosen = take n (sort_by_age due) in
    let older =
      sort_by_age-All (IsOlder n (sort_by_age due)) due
        (take-IsOlder n (sort_by_age due) (sort_by_age-IsOldestFirst due)) in
    (
      omega (
        arith,
        length-map (claimed now) chosen,
        length-take n (sort_by_age due),
        length-sort_by_age due,
        length-select (is_due now skipped) free,
        count-release now skipped policy es,
      ),
      All-map_image _ (claimed now) chosen (
          All-take _ n (sort_by_age due) (
            All-sort_by_age _ due (
              All-select _ _ (is_due now skipped) free (λ a ready hit. ready hit)
                (release-IsReady now skipped policy es)))),
      All-update_cases (λ e. is_due now skipped e ≡ true → IsOlder n (sort_by_age due) e) _
          (is_among chosen) (claimed now) free (λ e _ hit still. cc still)
          (λ e old miss still. All-map_image _ (claimed now) chosen (old still miss))
          (select-All (is_due now skipped) (IsOlder n (sort_by_age due)) free older),
    )
