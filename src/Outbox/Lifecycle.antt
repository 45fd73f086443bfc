-- ===== src/Outbox/Lifecycle.antt =====
-- Every sequence of operations on the outbox: what may happen to an event.
use essentials_merchant.Base.{
  ℕ, ℤ, String, ◌≡◌, refl, Bool, Option, List, [], ◌∷◌, Result, ok, err, RowByRow, RowByRow-refl,
  RowByRow-trans,
}
use essentials_merchant.Base.Keys.{HasDistinct}
use essentials_merchant.Outbox.{
  OutboxPolicy, claim_outbox_with_policy, acknowledge_outbox, retry_outbox_with_policy,
}
use essentials_merchant.Outbox.Requeue.{Db, Fresh, RequeueResult, RequeueError, manually_requeue}
use essentials_merchant.Outbox.Requeue.Laws.{RequeuesOne, manually_requeue-RequeuesOne}
use essentials_merchant.Outbox.Evolution.{
  key, Evolves, Evolves-refl, Evolves-trans, acknowledge_outbox-Evolves, retry_outbox-Evolves,
  claim_outbox-Evolves, HasDistinct-kept, RequeuesOne-Evolves,
}

-- One operation, with the time at which it runs and what its caller chooses.
pub data Op : Type 0 where
  claim : ℕ → (ℕ → Bool) → ℤ → OutboxPolicy → Op
  acknowledge : ℕ → ℕ → Op
  retry : ℕ → ℕ → String → OutboxPolicy → Op
  requeue : ℕ → ℕ → String → String → String → Fresh → Op

abbrev or_same : Db → Result RequeueError (RequeueResult × Db) → Db
or_same db (ok (r, db')) = db'
or_same db (err e) = db

module _ (parse_uuid : String → Option ℕ) where
  pub apply : Op → Db → Db
  apply (claim now skipped limit policy) db = record db {
    outbox = (claim_outbox_with_policy db.outbox now skipped limit policy).1;
  }
  apply (acknowledge now id) db = record db { outbox = (acknowledge_outbox db.outbox now id).1 }
  apply (retry now id error policy) db = record db {
    outbox = (retry_outbox_with_policy db.outbox now id error policy).1;
  }
  apply (requeue now actor source event_id k fresh) db =
      or_same db (manually_requeue parse_uuid db now actor source event_id k fresh)

  pub run : List Op → Db → Db
  unfolding apply
  run [] db = db
  run (op ∷ ops) db = run ops (apply op db)

module _ (parse_uuid : String → Option ℕ) where
  or_same-Evolves :
      (db : Db) (now : ℕ) (r : Result RequeueError (RequeueResult × Db))
      → HasDistinct key db.outbox
      → ((result : RequeueResult) (db' : Db)
          → r ≡ ok (result, db')
          → RequeuesOne now db.outbox db'.outbox)
      → RowByRow Evolves db.outbox (or_same db r).outbox
  or_same-Evolves db now (ok (result, db')) h one =
      RequeuesOne-Evolves now db.outbox db'.outbox h (one result db' refl)
  or_same-Evolves db now (err e) h one = RowByRow-refl Evolves Evolves-refl db.outbox

  apply-Evolves :
      (op : Op) (db : Db)
      → HasDistinct key db.outbox
      → RowByRow Evolves db.outbox (apply parse_uuid op db).outbox
  unfolding apply
  apply-Evolves (Op.claim now skipped limit policy) db h =
      claim_outbox-Evolves db.outbox now skipped limit policy h
  apply-Evolves (Op.acknowledge now id) db h = acknowledge_outbox-Evolves db.outbox now id
  apply-Evolves (Op.retry now id error policy) db h =
      retry_outbox-Evolves db.outbox now id error policy
  apply-Evolves (Op.requeue now actor source event_id k fresh) db h =
      or_same-Evolves db now (manually_requeue parse_uuid db now actor source event_id k fresh) h
        (λ r db' e.
          manually_requeue-RequeuesOne parse_uuid db db' now actor source event_id k fresh r e)

  -- Over every sequence of claims, acknowledgements, retries and manual requeues on a table with
  -- distinct ids: a delivered event is never touched again, a dead one only by a counted manual
  -- requeue, and counts of attempts and requeues never fall.
  pub run-Evolves :
      (ops : List Op) (db : Db)
      → HasDistinct key db.outbox
      → RowByRow Evolves db.outbox (run parse_uuid ops db).outbox
  unfolding run
  run-Evolves [] db h = RowByRow-refl Evolves Evolves-refl db.outbox
  run-Evolves (op ∷ ops) db h =
      let db' = apply parse_uuid op db in
      let step = apply-Evolves op db h in
      RowByRow-trans Evolves Evolves-trans db.outbox db'.outbox _ step
        (run-Evolves ops db' (HasDistinct-kept db.outbox db'.outbox step h))
