-- ===== src/Outbox/Evolution.antt =====
-- What one operation on the outbox does to its events.
use essentials_merchant.Base.{
  ℕ, ℤ, ◌≤◌, ◌<◌, String, ◌≡◌, refl, sym, subst, ◌∙◌, inl, inr, ◌⊎◌, Bool, true, false, ◌&&◌, some,
  List, [], ◌∷◌, arith, ◌==◌, find?, All, RowByRow, RowByRow-refl, RowByRow-trans, All-map, clamp,
  RowByRow-update_where, RowByRow-update_rows, any, any-take, any-find?, any-select, take, select,
  ◌||◌, ap, Bool-cases, Option-cases,
}
use essentials_merchant.Base.Keys.{HasDistinct, Owns, find?-Owns}
use essentials_merchant.Outbox.{
  Event, OutboxPolicy, has_id, is_delivered, is_dead, is_processing, release_lapsed, released,
  selected, sort_by_age, insert_by_age, is_due, claimed, is_among, is_in_work,
  claim_outbox_with_policy, acknowledge_outbox, acknowledged, retry_outbox_with_policy, retried,
  retry_status, delay_seconds, sanitize_integration_error,
}
use essentials_merchant.Outbox.Requeue.{requeued}
use essentials_merchant.Outbox.Requeue.Laws.{RequeuesOne}

abbrev pub key : Event → ℕ
key e = e.id

-- What may happen to an event: a delivered one is never touched again, a dead one only by a manual
-- requeue, which is counted, and no count of attempts or requeues falls.
pub record Evolves (e e' : Event) : Type 0 where
  pub same_id : e'.id ≡ e.id
  pub delivered_final : is_delivered e.status ≡ true → e' ≡ e
  pub dead_until_requeued :
      is_dead e.status ≡ true → (e' ≡ e) ⊎ (e.requeue_count < e'.requeue_count)
  pub attempts_grow : e.attempts ≤ e'.attempts
  pub requeues_grow : e.requeue_count ≤ e'.requeue_count

pub Evolves-refl : (e : Event) → Evolves e e
Evolves-refl e = record {
  same_id = refl;
  delivered_final = λ _. refl;
  dead_until_requeued = λ _. inl refl;
  attempts_grow = omega arith;
  requeues_grow = omega arith;
}

pub Evolves-trans : (a b c : Event) → Evolves a b → Evolves b c → Evolves a c
Evolves-trans a b c h k = record {
  same_id = k.same_id ∙ h.same_id;
  delivered_final = λ d. ground (arith, h.delivered_final d, k.delivered_final);
  dead_until_requeued = λ d. dead_steps d (h.dead_until_requeued d);
  attempts_grow = omega (arith, h.attempts_grow, k.attempts_grow);
  requeues_grow = omega (arith, h.requeues_grow, k.requeues_grow);
}
  where
    dead_steps :
        is_dead a.status ≡ true
        → (b ≡ a) ⊎ (a.requeue_count < b.requeue_count)
        → (c ≡ a) ⊎ (a.requeue_count < c.requeue_count)
    dead_steps d (inl same) =
        subst (λ (x : Event). (c ≡ x) ⊎ (x.requeue_count < c.requeue_count)) same
          (k.dead_until_requeued (subst (λ (x : Event). is_dead x.status ≡ true) (sym same) d))
    dead_steps d (inr more) = inr (omega (arith, more, k.requeues_grow))

-- A row that is neither delivered nor dead may change in every way that keeps its id and its counts.
Evolves-open :
    (e e' : Event)
    → is_delivered e.status ≡ false
    → is_dead e.status ≡ false
    → e'.id ≡ e.id
    → e.attempts ≤ e'.attempts
    → e'.requeue_count ≡ e.requeue_count
    → Evolves e e'
Evolves-open e e' live awake same more kept = record {
  same_id = same;
  delivered_final = λ d. cc;
  dead_until_requeued = λ d. cc;
  attempts_grow = more;
  requeues_grow = omega (arith, kept);
}

Evolves-working :
    (e e' : Event)
    → is_processing e.status ≡ true
    → e'.id ≡ e.id
    → e.attempts ≤ e'.attempts
    → e'.requeue_count ≡ e.requeue_count
    → Evolves e e'
Evolves-working e e' busy same more kept =
    Evolves-open e e' (ground arith) (ground arith) same more kept

pub acknowledge_outbox-Evolves :
    (es : List Event) (now id : ℕ) → RowByRow Evolves es (acknowledge_outbox es now id).1
unfolding acknowledge_outbox
acknowledge_outbox-Evolves es now id =
    RowByRow-update_where Evolves (is_in_work id) (acknowledged now) Evolves-refl
      (λ e h. Evolves-working e _ (ground arith) refl (omega arith) refl) es

pub retry_outbox-Evolves :
    (es : List Event) (now id : ℕ) (error : String) (policy : OutboxPolicy)
    → RowByRow Evolves es (retry_outbox_with_policy es now id error policy).1
unfolding retry_outbox_with_policy
retry_outbox-Evolves es now id error policy = elim (Option-cases (find? (is_in_work id) es)) [
  | inl missing ↦ rw (missing, retry_outbox_with_policy) (RowByRow-refl Evolves Evolves-refl es)
  | inr (f, found) ↦
      rw (found, retry_outbox_with_policy)
        (RowByRow-update_where Evolves (is_in_work id)
          (retried now (retry_status policy f.attempts) (delay_seconds policy f.attempts)
            (sanitize_integration_error error))
          Evolves-refl (λ e h. Evolves-working e _ (ground arith) refl (omega arith) refl) es)
]

any-insert_by_age :
    (p : Event → Bool) (e : Event) (es : List Event) → any p (insert_by_age e es) ≡ any p (e ∷ es)
unfolding insert_by_age
any-insert_by_age p e [] = refl
any-insert_by_age p e (f ∷ fs) = ground (arith, any-insert_by_age p e fs)

any-sort_by_age : (p : Event → Bool) (es : List Event) → any p (sort_by_age es) ≡ any p es
unfolding sort_by_age
any-sort_by_age p [] = refl
any-sort_by_age p (e ∷ es) =
    any-insert_by_age p e (sort_by_age es) ∙ ap (λ (b : Bool). p e || b) (any-sort_by_age p es)

-- Where ids are distinct, a row of a chosen id is one that was due.
chosen-due :
    (due : Event → Bool) (n : ℕ) (es : List Event) (e : Event)
    → ((f : Event) → find? (λ g. due g && has_id e.id g) es ≡ some f → Owns key f e)
    → is_among (take n (sort_by_age (select due es))) e ≡ true
    → due e ≡ true
chosen-due due n es e own h =
    let among_due = any-take (has_id e.id) n (sort_by_age (select due es)) h in
    let among =
      sym (any-select (has_id e.id) due es)
      ∙ (sym (any-sort_by_age (has_id e.id) (select due es)) ∙ among_due) in
    let (f, found, good) = any-find? (λ g. due g && has_id e.id g) es among in
    let same : e ≡ f = own f found (ground arith) in
    subst (λ (g : Event). due g ≡ true) (sym same) (ground arith)

-- Every row of a table with distinct ids is the only one under its id.
rows_owned :
    (p : Event → Event → Bool) (es xs : List Event)
    → ((q : Event → Bool) (f : Event) → find? q es ≡ some f → All (Owns key f) xs)
    → All (λ e. (f : Event) → find? (p e) es ≡ some f → Owns key f e) xs
rows_owned p es [] h = tt
rows_owned p es (x ∷ xs) h =
    (λ f found. (h (p x) f found).0, rows_owned p es xs (λ q f found. (h q f found).1))

Evolves-claimed :
    (now : ℕ) (skipped : ℕ → Bool) (e : Event)
    → is_due now skipped e ≡ true
    → Evolves e (claimed now e)
Evolves-claimed now skipped e due =
    Evolves-open e _ (ground arith) (ground arith) refl (omega arith) refl

pub HasDistinct-kept :
    (es es' : List Event) → RowByRow Evolves es es' → HasDistinct key es → HasDistinct key es'
HasDistinct-kept [] [] r h = tt
HasDistinct-kept [] (e' ∷ es') r h = absurd r
HasDistinct-kept (e ∷ es) [] r h = absurd r
HasDistinct-kept (e ∷ es) (e' ∷ es') r h = (others es es' r.1 h.0, HasDistinct-kept es es' r.1 h.1)
  where
    others :
        (xs xs' : List Event)
        → RowByRow Evolves xs xs'
        → All (λ y. (key y == key e) ≡ false) xs
        → All (λ y. (key y == key e') ≡ false) xs'
    others [] [] q k = tt
    others [] (x' ∷ xs') q k = absurd q
    others (x ∷ xs) [] q k = absurd q
    others (x ∷ xs) (x' ∷ xs') q k =
        (ground (arith, q.0.same_id, r.0.same_id, k.0), others xs xs' q.1 k.1)

release_lapsed-Evolves :
    (now : ℕ) (policy : OutboxPolicy) (es : List Event)
    → RowByRow Evolves es (release_lapsed now policy es)
unfolding release_lapsed
release_lapsed-Evolves now policy es =
    RowByRow-update_where Evolves _ released Evolves-refl
      (λ e h. Evolves-working e (released e) (ground arith) refl (omega arith) refl) es

pub claim_outbox-Evolves :
    (es : List Event) (now : ℕ) (skipped : ℕ → Bool) (limit : ℤ) (policy : OutboxPolicy)
    → HasDistinct key es
    → RowByRow Evolves es (claim_outbox_with_policy es now skipped limit policy).1
unfolding claim_outbox_with_policy
claim_outbox-Evolves es now skipped limit policy h =
    let free = release_lapsed now policy es in
    let chosen = selected now skipped limit free in
    let distinct = HasDistinct-kept es free (release_lapsed-Evolves now policy es) h in
    RowByRow-trans Evolves Evolves-trans es free _ (release_lapsed-Evolves now policy es) (
      RowByRow-update_rows Evolves (is_among chosen) (claimed now) Evolves-refl free (
        All-map _ _ free
          (λ e own among.
            Evolves-claimed now skipped e
              (chosen-due (is_due now skipped) (clamp 1 100 limit) free e own among))
          (rows_owned (λ e g. is_due now skipped g && has_id e.id g) free free
            (λ q f found. find?-Owns key q f free distinct found))))

requeued-Evolves : (now : ℕ) (e : Event) → is_dead e.status ≡ true → Evolves e (requeued now e)
requeued-Evolves now e dead = record {
  same_id = refl;
  delivered_final = λ d. ground (arith, d, dead);
  dead_until_requeued = λ _. inr (omega arith);
  attempts_grow = omega arith;
  requeues_grow = omega arith;
}

pub RequeuesOne-Evolves :
    (now : ℕ) (es es' : List Event)
    → HasDistinct key es
    → RequeuesOne now es es'
    → RowByRow Evolves es es'
RequeuesOne-Evolves now es es' h (inl same) = rw same (RowByRow-refl Evolves Evolves-refl es)
RequeuesOne-Evolves now es es' h (inr (id, e, found, dead, same)) = rw same (
    RowByRow-update_rows Evolves (has_id id) (requeued now) Evolves-refl es (
      All-map _ _ es
        (λ f own hit. requeued-Evolves now f (
          subst (λ (g : Event). is_dead g.status ≡ true)
            (sym (own (ground (arith, hit, found_id es e found)))) dead))
        (find?-Owns key (has_id id) e es h found)))
  where
    found_id : (xs : List Event) (f : Event) → find? (has_id id) xs ≡ some f → (f.id == id) ≡ true
    found_id [] f k = cc
    found_id (x ∷ xs) f k = elim (Bool-cases (has_id id x)) [
      | inl hit ↦ ground (arith, hit, k)
      | inr miss ↦ found_id xs f (rw miss at k)
    ]
