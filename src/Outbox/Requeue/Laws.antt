-- ===== src/Outbox/Requeue/Laws.antt =====
-- Manual requeue: once per key, and only of dead events.
use essentials_merchant.Base.{
  ℕ, String, str_eq, str_eq_refl, ◌≡◌, refl, ap, subst, ◌⊎◌, inl, inr, true, not, Option, none,
  some, List, [], ◌∷◌, arith, ok, find?, any, update_where, Bool-cases, Option-cases, >>=-eq-ok,
}
use essentials_merchant.Outbox.{Event, has_id, is_dead}
use essentials_merchant.Outbox.Requeue.{
  Db, AuditEntry, Fresh, RequeueResult, has_key, is_key_valid, requeued, requeue_core,
  requeue_vendure, requeue_source, requeue_once, manually_requeue, completed, with_id,
  requested_entry,
}

-- A branch that succeeds leaves the audit log alone.
requeue_source-audit :
    (parse_uuid : String → Option ℕ) (db db' : Db) (now actor : ℕ) (source event_id key : String)
    (fresh : ℕ) (command : Option ℕ)
    → requeue_source parse_uuid db now actor source event_id key fresh ≡ ok (command, db')
    → db'.audit ≡ db.audit
unfolding requeue_source requeue_core requeue_vendure
requeue_source-audit parse_uuid db db' now actor source event_id key fresh command e = ground arith

any-completed :
    (key : String) (id : ℕ) (command : Option ℕ) (log : List AuditEntry)
    → any (has_key key) (update_where (with_id id) (completed command) log) ≡ any (has_key key) log
any-completed key id command [] = refl
any-completed key id command (e ∷ log) = ground (arith, any-completed key id command log)

requeue_once-records :
    (parse_uuid : String → Option ℕ) (db db' : Db) (now actor : ℕ) (source event_id key : String)
    (fresh : Fresh) (r : RequeueResult)
    → requeue_once parse_uuid db now actor source event_id key fresh ≡ ok (r, db')
    → any (has_key key) db'.audit ≡ true
unfolding requeue_once
requeue_once-records parse_uuid db db' now actor source event_id key fresh r e =
    let ((command, db₁), branch, done) =
      >>=-eq-ok
        (requeue_source parse_uuid
          (record db { audit = requested_entry fresh actor source event_id key ∷ db.audit }) now
          actor source event_id key fresh.command_id)
        _ e in
    let same =
      requeue_source-audit parse_uuid _ db₁ now actor source event_id key _ command branch in
    ground (
      arith,
      done,
      ap (any (has_key key)) same,
      any-completed key fresh.audit_id command db₁.audit,
      str_eq_refl key,
    )

-- Once a request has been accepted, every request under the same key, for whatever event, is
-- reported as accepted and as a duplicate, and changes nothing.
pub manually_requeue-once :
    (parse_uuid : String → Option ℕ) (db db' : Db) (now later actor other : ℕ)
    (source event_id source' event_id' key : String) (fresh fresh' : Fresh) (r : RequeueResult)
    → manually_requeue parse_uuid db now actor source event_id key fresh ≡ ok (r, db')
    → manually_requeue parse_uuid db' later other source' event_id' key fresh'
      ≡ ok (record { accepted = true; duplicate = true; command_id = none }, db')
unfolding manually_requeue
manually_requeue-once parse_uuid db db' now later actor other source event_id source' event_id' key
      fresh fresh' r e =
    elim (Bool-cases (any (has_key key) db.audit)) [
      | inl known ↦ ground (arith, e, known)
      | inr unknown ↦ ground (
        arith,
        e,
        unknown,
        requeue_once-records parse_uuid db db' now actor source event_id key fresh r,
      )
    ]

-- What a request does to the outbox: nothing, or it sends one dead event again.
abbrev pub RequeuesOne : ℕ → List Event → List Event → Type 0
RequeuesOne now es es' =
    (es' ≡ es)
    ⊎ ((id : ℕ) × (e : Event) × (find? (has_id id) es ≡ some e)
        × (is_dead e.status ≡ true)
        × (es' ≡ update_where (has_id id) (requeued now) es))

requeue_core-one :
    (db db' : Db) (now : ℕ) (parsed : Option ℕ) (command : Option ℕ)
    → requeue_core db now parsed ≡ ok (command, db')
    → RequeuesOne now db.outbox db'.outbox
unfolding requeue_core
requeue_core-one db db' now none command h = cc
requeue_core-one db db' now (some id) command h =
    elim (Option-cases (find? (has_id id) db.outbox)) [
      | inl missing ↦ ground (arith, missing, h)
      | inr (e, found) ↦ elim (Bool-cases (is_dead e.status)) [
        | inl dead ↦ inr (id, e, found, dead, ground (arith, found, dead, h))
        | inr alive ↦ ground (arith, found, alive, h)
      ]
    ]

requeue_source-one :
    (parse_uuid : String → Option ℕ) (db db' : Db) (now actor : ℕ) (source event_id key : String)
    (fresh : ℕ) (command : Option ℕ)
    → requeue_source parse_uuid db now actor source event_id key fresh ≡ ok (command, db')
    → RequeuesOne now db.outbox db'.outbox
unfolding requeue_source requeue_vendure
requeue_source-one parse_uuid db db' now actor source event_id key fresh command h =
    elim (Bool-cases (str_eq source "core")) [
      | inl core ↦ requeue_core-one db db' now (parse_uuid event_id) command (rw core at h)
      | inr other ↦ inl (ground arith)
    ]

-- A request that succeeds leaves the outbox as it is, or sends exactly one event again, which was
-- dead.
pub manually_requeue-RequeuesOne :
    (parse_uuid : String → Option ℕ) (db db' : Db) (now actor : ℕ) (source event_id key : String)
    (fresh : Fresh) (r : RequeueResult)
    → manually_requeue parse_uuid db now actor source event_id key fresh ≡ ok (r, db')
    → RequeuesOne now db.outbox db'.outbox
unfolding manually_requeue requeue_once
manually_requeue-RequeuesOne parse_uuid db db' now actor source event_id key fresh r h =
    elim (Bool-cases (not (is_key_valid key))) [
      | inl bad ↦ ground (arith, bad, h)
      | inr good ↦ elim (Bool-cases (any (has_key key) db.audit)) [
        | inl known ↦ inl (ground (arith, good, known, h))
        | inr unknown ↦ accepted_one (ground (arith, good, unknown, h))
      ]
    ]
  where
    accepted_one :
        requeue_once parse_uuid db now actor source event_id key fresh ≡ ok (r, db')
        → RequeuesOne now db.outbox db'.outbox
    accepted_one e =
        let ((command, db₁), branch, done) =
          >>=-eq-ok
            (requeue_source parse_uuid
              (record db { audit = requested_entry fresh actor source event_id key ∷ db.audit }) now
              actor source event_id key fresh.command_id)
            _ e in
        let one =
          requeue_source-one parse_uuid _ db₁ now actor source event_id key _ command branch in
        let same : db₁.outbox ≡ db'.outbox = ground (arith, done) in
        subst (λ (es : List Event). RequeuesOne now db.outbox es) same one
