-- ===== src/Outbox/Requeue/Tests.antt =====
-- A manual requeue at a concrete database.
use essentials_merchant.Base.{
  ℕ, String, ◌≡◌, refl, Bool, true, false, Option, none, some, List, [], ◌∷◌, ok, err,
}
use essentials_merchant.Outbox.{Event, Status}
use essentials_merchant.Outbox.Requeue.{
  Db, Fresh, RequeueResult, RequeueError, AuditEntry, AuditDetails, manually_requeue,
}
use essentials_merchant.Outbox.Requeue.Laws.{
  RequeuesOne, manually_requeue-once, manually_requeue-RequeuesOne,
}

abbrev event : Status → ℕ → Option String → ℕ → Option ℕ → Event
event status available_at last_error count requeued_at = record {
  id = 5;
  sequence = 1;
  status = status;
  attempts = 20;
  available_at = available_at;
  locked_at = none;
  last_error = last_error;
  created_at = 1;
  delivered_at = none;
  requeue_count = count;
  requeued_at = requeued_at;
}

abbrev parse_five : String → Option ℕ
parse_five text = some 5

abbrev before : Db
before = record {
  outbox = event Status.dead 9 none 0 none ∷ [];
  audit = [];
  remote = [];
  commands = [];
}

abbrev entry : AuditEntry
entry = record {
  id = 70;
  actor_user_id = 3;
  target_type = "core.outbox";
  target_id = "five";
  idempotency_key = "again";
  details = AuditDetails.accepted none;
}

abbrev after : Db
after = record {
  outbox = event Status.pending 40 (some "manually requeued") 1 (some 40) ∷ [];
  audit = entry ∷ [];
  remote = [];
  commands = [];
}

abbrev fresh : Fresh
fresh = record { audit_id = 70; command_id = 71 }

abbrev accepted : RequeueResult
accepted = record { accepted = true; duplicate = false; command_id = none }

run_requeue :
    manually_requeue parse_five before 40 3 "core" "five" "again" fresh ≡ ok (accepted, after)
unfolding manually_requeue essentials_merchant.Base.is_blank
    essentials_merchant.Outbox.Requeue.requeue_once
    essentials_merchant.Outbox.Requeue.requeue_source
    essentials_merchant.Outbox.Requeue.requeue_core
run_requeue = refl

manually_requeue-once_example :
    manually_requeue parse_five after 50 4 "vendure" "six" "again" fresh
    ≡ ok (record { accepted = true; duplicate = true; command_id = none }, after)
manually_requeue-once_example =
    manually_requeue-once parse_five before after 40 50 3 4 "core" "five" "vendure" "six" "again"
      fresh fresh accepted run_requeue

manually_requeue-RequeuesOne_example : RequeuesOne 40 before.outbox after.outbox
manually_requeue-RequeuesOne_example =
    manually_requeue-RequeuesOne parse_five before after 40 3 "core" "five" "again" fresh accepted
      run_requeue
