-- ===== src/Catalogue/Transition.antt =====
-- `transition_state` of backend/crates/db/src/modules.rs: the administrator's change of a module's
-- state. An error drops the transaction, so only a success carries a new database.
pub mod Invariant
pub mod Idempotent
mod Tests
use essentials_merchant.Base.{
  ℕ, String, str_eq, Bool, true, false, not, ◌&&◌, ◌||◌, Option, none, some, List, [], ◌∷◌,
  if◌then◌else◌, Result, ok, err, ◌>>=◌, ◌>>◌, raise_if, or_raise, find?, any,
}
use essentials_merchant.Catalogue.{
  ModuleState, ModuleKind, connector, Module, HealthStatus, healthy, ConnectorHealth, AuditEntry,
  Db, ModuleTransition, ModuleChangeError, not_found, missing_dependency, conflict, sqlx,
  is_state_on, update_modules, answers_to, has_key, enabled_in_transaction, contains,
}

abbrev pub state_change : String
state_change = "module.state_change"

abbrev pub is_entry : String → String → AuditEntry → Bool
is_entry action key e = str_eq e.action action && str_eq e.idempotency_key key

abbrev pub decode_state : Option AuditEntry → Result ModuleChangeError (Option ModuleState)
decode_state none = ok none
decode_state (some e) = elim e.new_state [ none ↦ err sqlx | some s ↦ ok (some s) ]

pub existing_transition : Db → String → Result ModuleChangeError (Option ModuleState)
existing_transition db key = decode_state (find? (is_entry state_change key) db.audit)

abbrev pub is_connector : ModuleKind → Bool
is_connector connector = true
is_connector _ = false

abbrev pub is_not_installed : ModuleState → Bool
is_not_installed ModuleState.not_installed = true
is_not_installed _ = false

abbrev pub is_healthy : HealthStatus → Bool
is_healthy healthy = true
is_healthy _ = false

-- The state that the text `target_state` names, once it is one of the two.
abbrev pub named_state : String → ModuleState
named_state target = if str_eq target "enabled" then ModuleState.enabled else ModuleState.disabled

abbrev pub connector_state : Option ConnectorHealth → Result ModuleChangeError ModuleState
connector_state none = err ModuleChangeError.needs_configuration
connector_state (some h) =
    if h.configuration_valid
    then ok (if is_healthy h.health_status then ModuleState.enabled else ModuleState.degraded)
    else err ModuleChangeError.needs_configuration

-- `effective_state`
pub effective_state : Db → Module → String → Result ModuleChangeError ModuleState
effective_state db m target =
    if str_eq target "enabled" && is_connector m.module_kind
    then connector_state (find? (λ h. str_eq h.module_key m.module_key) db.health)
    else ok (named_state target)

pub check_dependencies : Db → List String → Result ModuleChangeError (Unit {0})
check_dependencies db [] = ok tt
check_dependencies db (d ∷ ds) =
    if enabled_in_transaction db d then check_dependencies db ds else err (missing_dependency d)

pub check_conflicts : Db → List String → Result ModuleChangeError (Unit {0})
check_conflicts db [] = ok tt
check_conflicts db (c ∷ cs) =
    if enabled_in_transaction db c then err (conflict c) else check_conflicts db cs

-- An enabled module that depends on `id`, the first by `module_id`.
abbrev pub depends_on : String → Module → Bool
depends_on id m = m.enabled && contains m.dependencies id

abbrev pub refuse_dependent : Option Module → Result ModuleChangeError (Unit {0})
refuse_dependent none = ok tt
refuse_dependent (some m) = err (missing_dependency m.module_id)

pub check_links : Db → Module → String → Result ModuleChangeError (Unit {0})
check_links db m target =
    if str_eq target "enabled"
    then check_dependencies db m.dependencies >> check_conflicts db m.conflicts
    else refuse_dependent (find? (depends_on m.module_id) db.modules)

abbrev pub with_state : ModuleState → Module → Module
with_state s m = record m { state = s; enabled = is_state_on s }

-- INSERT INTO administrative_audit_log, under UNIQUE (action, idempotency_key).
pub insert_audit : AuditEntry → List AuditEntry → Result ModuleChangeError (List AuditEntry)
insert_audit e log =
    if any (is_entry e.action e.idempotency_key) log then err sqlx else ok (e ∷ log)

-- The writes, once every check has passed.
pub write_state :
    Db → ℕ → Module → ModuleState → String → Result ModuleChangeError (ModuleTransition × Db)
write_state db actor m s key = do
  modules ← update_modules (has_key m.module_key) (with_state s) db.modules
  let entry : AuditEntry = record {
    actor_user_id = actor;
    action = state_change;
    target_id = m.module_id;
    idempotency_key = key;
    new_state = some s;
  }
  audit ← insert_audit entry db.audit
  ok (
    record { module_id = m.module_id; state = s; duplicate = false },
    record db { modules = modules; audit = audit },
  )

-- What follows the look-up of the idempotency key.
pub change_state :
    Db → ℕ → Module → String → String → Result ModuleChangeError (ModuleTransition × Db)
change_state db actor m target key = do
  raise_if (str_eq target "disabled" && m.required) ModuleChangeError.required
  raise_if (str_eq target "enabled" && is_not_installed m.state) ModuleChangeError.not_installed
  s ← effective_state db m target
  check_links db m target
  write_state db actor m s key

abbrev pub replay_or_change :
    Db
    → ℕ
    → Module
    → String
    → String
    → Option ModuleState
    → Result ModuleChangeError (ModuleTransition × Db)
replay_or_change db actor m target key (some s) =
    ok (record { module_id = m.module_id; state = s; duplicate = true }, db)
replay_or_change db actor m target key none = change_state db actor m target key

unfoldable pub transition_state :
    Db → ℕ → String → String → String → Result ModuleChangeError (ModuleTransition × Db)
transition_state db actor identifier target key = do
  raise_if (not (str_eq target "enabled" || str_eq target "disabled"))
      ModuleChangeError.not_installed
  m ← or_raise (find? (answers_to identifier) db.modules) not_found
  existing ← existing_transition db key
  replay_or_change db actor m target key existing
