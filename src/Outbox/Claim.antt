-- ===== src/Outbox/Claim.antt =====
-- That no event is in two hands at once.
use essentials_merchant.Base.{
  ℕ, ℤ, ◌+◌, ◌*◌, ◌≤◌, ◌≡◌, refl, sym, ◌∙◌, ap, inl, inr, Bool, true, false, ◌||◌, Option, none,
  some, List, [], ◌∷◌, map, arith, leb, any, select, update_where, take, length, All, All-take,
  All-select, All-update_where, clamp, Bool-cases,
}
use essentials_merchant.Outbox.{
  Event, OutboxPolicy, Status, second, is_due, is_among, has_id, claimed, selected, release_lapsed,
  released, is_lapsed, sort_by_age, insert_by_age, claim_outbox_with_policy,
}

length-insert_by_age : (e : Event) (es : List Event) → length (insert_by_age e es) ≡ length es + 1
unfolding insert_by_age
length-insert_by_age e [] = refl
length-insert_by_age e (f ∷ fs) = ground (arith, length-insert_by_age e fs)

pub length-sort_by_age : (es : List Event) → length (sort_by_age es) ≡ length es
unfolding sort_by_age
length-sort_by_age [] = refl
length-sort_by_age (e ∷ es) =
    omega (arith, length-insert_by_age e (sort_by_age es), length-sort_by_age es)

module _ {κ} (P : Event → Type κ) where
  pub All-insert_by_age :
      (e : Event) (es : List Event) → P e → All P es → All P (insert_by_age e es)
  unfolding insert_by_age
  All-insert_by_age e [] p h = (p, tt)
  All-insert_by_age e (f ∷ fs) p h = elim (Bool-cases (leb e.created_at f.created_at)) [
    | inl early ↦ rw early (p, h)
    | inr late ↦ rw late (h.0, All-insert_by_age e fs p h.1)
  ]

  pub All-sort_by_age : (es : List Event) → All P es → All P (sort_by_age es)
  unfolding sort_by_age
  All-sort_by_age [] h = tt
  All-sort_by_age (e ∷ es) h = All-insert_by_age e (sort_by_age es) h.0 (All-sort_by_age es h.1)

-- A row of the chosen ids is in work since `t`.
abbrev IsHeld : List Event → ℕ → Event → Type 0
IsHeld chosen t e =
    is_among chosen e ≡ true → (e.status ≡ Status.processing) × (e.locked_at ≡ some t)

claimed-IsHeld :
    (chosen : List Event) (t : ℕ) (es : List Event)
    → All (IsHeld chosen t) (update_where (is_among chosen) (claimed t) es)
claimed-IsHeld chosen t [] = tt
claimed-IsHeld chosen t (e ∷ es) = elim (Bool-cases (is_among chosen e)) [
  | inl hit ↦ rw hit (λ _. (refl, refl), claimed-IsHeld chosen t es)
  | inr miss ↦ rw miss (λ h. cc, claimed-IsHeld chosen t es)
]

-- Within the lease the row is not given back.
release-IsHeld :
    (chosen es : List Event) (t now : ℕ) (policy : OutboxPolicy)
    → now ≤ t + clamp 1 86400 policy.lease_seconds * second
    → All (IsHeld chosen t) es
    → All (IsHeld chosen t) (release_lapsed now policy es)
unfolding release_lapsed
release-IsHeld chosen es t now policy early h =
    All-update_where (IsHeld chosen t) _ released es
      (λ e held lapsed among.
        still_held e (clamp 1 86400 policy.lease_seconds) early (held among) lapsed)
      h
  where
    still_held :
        (e : Event) (lease : ℕ)
        → now ≤ t + lease * second
        → (e.status ≡ Status.processing) × (e.locked_at ≡ some t)
        → is_lapsed now lease e ≡ true
        → (Status.pending ≡ Status.processing) × (◌≡◌ {A = Option ℕ} none (some t))
    still_held e lease in_time held lapsed = absurd (ground (arith, held.0, held.1))

not_due :
    (chosen : List Event) (t now : ℕ) (skipped : ℕ → Bool) (e : Event)
    → IsHeld chosen t e
    → is_due now skipped e ≡ true
    → is_among chosen e ≡ false
not_due chosen t now skipped e held due = elim (Bool-cases (is_among chosen e)) [
  | inl among ↦ ground (arith, (held among).0)
  | inr other ↦ other
]

any-claimed :
    (id now : ℕ) (es : List Event) → any (has_id id) (map (claimed now) es) ≡ any (has_id id) es
any-claimed id now [] = refl
any-claimed id now (e ∷ es) = ap (λ (b : Bool). has_id id e || b) (any-claimed id now es)

apart :
    (id : ℕ) (chosen es : List Event)
    → any (has_id id) chosen ≡ true
    → All (λ e. is_among chosen e ≡ false) es
    → any (has_id id) es ≡ false
apart id chosen [] h a = refl
apart id chosen (e ∷ es) h a = elim (Bool-cases (has_id id e)) [
  | inl same ↦ absurd (clash (ground arith))
  | inr other ↦ rw other (apart id chosen es h a.1)
]
  where
    clash : e.id ≡ id → ⊥
    clash same = cc (ap (λ (k : ℕ). any (has_id k) chosen) same, h, a.0)

-- An event that one claim hands out is not handed out again by a claim within the lease, whatever
-- the limits and policies of the two are.
pub claim_outbox-exclusive :
    (es : List Event) (t now : ℕ) (skipped skipped' : ℕ → Bool) (limit limit' : ℤ)
    (policy policy' : OutboxPolicy) (id : ℕ)
    → now ≤ t + clamp 1 86400 policy'.lease_seconds * second
    → let (batch, after) = claim_outbox_with_policy es t skipped limit policy in
      any (has_id id) batch ≡ true
      → any (has_id id) (claim_outbox_with_policy after now skipped' limit' policy').0 ≡ false
unfolding claim_outbox_with_policy
claim_outbox-exclusive es t now skipped skipped' limit limit' policy policy' id early h =
    let chosen = selected t skipped limit (release_lapsed t policy es) in
    let after = update_where (is_among chosen) (claimed t) (release_lapsed t policy es) in
    let due = select (is_due now skipped') (release_lapsed now policy' after) in
    let n = clamp 1 100 limit' in
    any-claimed id now (take n (sort_by_age due))
    ∙ apart id chosen (take n (sort_by_age due)) (sym (any-claimed id t chosen) ∙ h) (
        All-take _ n (sort_by_age due) (
          All-sort_by_age _ due (
            All-select (IsHeld chosen t) _ (is_due now skipped') (release_lapsed now policy' after)
              (λ e held hit. not_due chosen t now skipped' e held hit)
              (release-IsHeld chosen after t now policy' early
                (claimed-IsHeld chosen t (release_lapsed t policy es))))))
