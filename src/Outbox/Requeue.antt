-- ===== src/Outbox/Requeue.antt =====
-- `manually_requeue` of backend/crates/db/src/commerce.rs: an administrator's request to send a dead
-- event again, recorded once per idempotency key. `parse_uuid` is the uuid crate's parser, and
-- `Fresh` holds the identifiers that the database
-- draws.
pub mod Laws
mod Tests
use Prim.Native.String.{◌++◌ as append_text}
use essentials_merchant.Base.{
  ℕ, ◌+◌, String, str_eq, Bool, true, false, not, ◌&&◌, ◌||◌, Option, none, some, List, [], ◌∷◌,
  ◌++◌, if◌then◌else◌, ◌==◌, ltb, Result, ok, err, ◌>>=◌, ◌>>◌, raise_if, or_raise, find?, any,
  update_where, is_blank, byte_len,
}
use essentials_merchant.Outbox.{Event, Status, has_id, is_dead}

-- `details` holds the outcome, and the command once the request is accepted.
pub data AuditDetails : Type 0 where
  requested : AuditDetails
  accepted : Option ℕ → AuditDetails

pub record AuditEntry : Type 0 where
  pub id : ℕ
  pub actor_user_id : ℕ
  pub target_type : String
  pub target_id : String
  pub idempotency_key : String
  pub details : AuditDetails

pub record RemoteEvent : Type 0 where
  pub external_event_id : String
  pub status : String

pub record AdminCommand : Type 0 where
  pub id : ℕ
  pub target_id : String
  pub idempotency_key : String
  pub actor_user_id : ℕ

-- `audit` holds the rows of `administrative_audit_log` with the action 'integration.requeue',
-- `remote` those of `integration_remote_events` and `commands` those of
-- `integration_admin_commands`, both of the provider 'vendure'.
pub record Db : Type 0 where
  pub outbox : List Event
  pub audit : List AuditEntry
  pub remote : List RemoteEvent
  pub commands : List AdminCommand

pub record RequeueResult : Type 0 where
  pub accepted : Bool
  pub duplicate : Bool
  pub command_id : Option ℕ

pub data RequeueError : Type 0 where
  not_found not_dead unsupported_source : RequeueError

abbrev pub is_key_valid : String → Bool
is_key_valid key = not (is_blank key || ltb 128 (byte_len key))

abbrev pub has_key : String → AuditEntry → Bool
has_key key e = str_eq e.idempotency_key key

abbrev pub requeued : ℕ → Event → Event
requeued now e = record e {
  status = Status.pending;
  available_at = now;
  locked_at = none;
  last_error = some "manually requeued";
  requeue_count = e.requeue_count + 1;
  requeued_at = some now;
}

-- The branch of the source "core".
pub requeue_core : Db → ℕ → Option ℕ → Result RequeueError (Option ℕ × Db)
requeue_core db now parsed = do
  id ← or_raise parsed not_found
  e ← or_raise (find? (has_id id) db.outbox) not_found
  raise_if (not (is_dead e.status)) not_dead
  ok (none, record db { outbox = update_where (has_id id) (requeued now) db.outbox })

abbrev pub has_external_id : String → RemoteEvent → Bool
has_external_id id e = str_eq e.external_event_id id

-- The branch of the source "vendure".
pub requeue_vendure : Db → ℕ → String → String → ℕ → Result RequeueError (Option ℕ × Db)
requeue_vendure db actor event_id key fresh = do
  e ← or_raise (find? (has_external_id event_id) db.remote) not_found
  raise_if (not (str_eq e.status "dead")) not_dead
  let command : AdminCommand = record {
    id = fresh;
    target_id = event_id;
    idempotency_key = key;
    actor_user_id = actor;
  }
  ok (some fresh, record db { commands = command ∷ db.commands })

pub requeue_source :
    (String → Option ℕ)
    → Db
    → ℕ
    → ℕ
    → String
    → String
    → String
    → ℕ
    → Result RequeueError (Option ℕ × Db)
requeue_source parse_uuid db now actor source event_id key fresh =
    if str_eq source "core"
    then requeue_core db now (parse_uuid event_id)
    else if str_eq source "vendure"
    then requeue_vendure db actor event_id key fresh
    else err unsupported_source

-- The identifiers that the database draws: of the audit row and of a command.
pub record Fresh : Type 0 where
  pub audit_id : ℕ
  pub command_id : ℕ

abbrev pub requested_entry : Fresh → ℕ → String → String → String → AuditEntry
requested_entry fresh actor source event_id key = record {
  id = fresh.audit_id;
  actor_user_id = actor;
  target_type = append_text source ".outbox";
  target_id = event_id;
  idempotency_key = key;
  details = AuditDetails.requested;
}

abbrev pub completed : Option ℕ → AuditEntry → AuditEntry
completed command e = record e { details = AuditDetails.accepted command }

abbrev pub with_id : ℕ → AuditEntry → Bool
with_id id e = e.id == id

-- Past the check of the key and the insertion of the audit row. The error of a branch drops both
-- with the transaction.
pub requeue_once :
    (String → Option ℕ)
    → Db
    → ℕ
    → ℕ
    → String
    → String
    → String
    → Fresh
    → Result RequeueError (RequeueResult × Db)
requeue_once parse_uuid db now actor source event_id key fresh = do
  let entry = requested_entry fresh actor source event_id key
  (command, db') ←
      requeue_source parse_uuid (record db { audit = entry ∷ db.audit }) now actor source event_id
        key fresh.command_id
  ok (
    record { accepted = true; duplicate = false; command_id = command },
    record db' { audit = update_where (with_id fresh.audit_id) (completed command) db'.audit },
  )

unfoldable pub manually_requeue :
    (String → Option ℕ)
    → Db
    → ℕ
    → ℕ
    → String
    → String
    → String
    → Fresh
    → Result RequeueError (RequeueResult × Db)
manually_requeue parse_uuid db now actor source event_id key fresh =
    if not (is_key_valid key)
    then err unsupported_source
    else if any (has_key key) db.audit
    then ok (record { accepted = true; duplicate = true; command_id = none }, db)
    else requeue_once parse_uuid db now actor source event_id key fresh
