-- ===== src/Catalogue/Profile.antt =====
-- `apply_amazon_read_only_profile` and `amazon_pilot_status` of backend/crates/db/src/modules.rs,
-- over the module catalogue and the tables of connections, report runs and schedules. The record of
-- the last backup verification is only passed on by the source and is left out.
pub mod Compliance
pub mod Holds
mod Tests
use essentials_merchant.Base.{
  ℕ, String, str_eq, Bool, true, false, not, ◌&&◌, ◌||◌, Option, none, some, List, [], ◌∷◌, ◌++◌,
  map, if◌then◌else◌, ◌==◌, Result, ok, err, ◌>>=◌, any, all, select, update_where, count_where,
}
use essentials_merchant.Catalogue.{
  ModuleState, Module, AuditEntry, Db, ModuleChangeError, update_modules, contains,
}

abbrev pub amazon_pilot_enabled_modules : List String
amazon_pilot_enabled_modules =
    "core.operations" ∷ "core.catalog" ∷ "core.inventory" ∷ "core.orders"
    ∷ "marketplace.amazon_intelligence" ∷ "intelligence.rules" ∷ "pilot.amazon_read_only" ∷ []

abbrev pub amazon_pilot_mutation_modules : List String
amazon_pilot_mutation_modules =
    "commerce.vendure" ∷ "commerce.storefront" ∷ "payment.test" ∷ "shipping.manual" ∷ "shipping.dhl"
    ∷ "shipping.dpd" ∷ "accounting.invoices" ∷ "accounting.corrections" ∷ "export.datev"
    ∷ "custom.catalog" ∷ []

pub data RunStatus : Type 0 where
  queued requesting polling downloading parsing analysing : RunStatus
  succeeded archived failed cancelled fatal : RunStatus

pub data ConnectionMode : Type 0 where
  fixture live : ConnectionMode

pub record Connection : Type 0 where
  pub id : ℕ
  pub mode : ConnectionMode

pub record ReportRun : Type 0 where
  pub id : ℕ
  pub connection_id : ℕ
  pub status : RunStatus
  pub failure_code : Option String
  pub completed_at : Option ℕ
  pub locked_at : Option ℕ

pub record RunEvent : Type 0 where
  pub run_id : ℕ
  pub status : RunStatus

pub record Schedule : Type 0 where
  pub id : ℕ
  pub enabled : Bool

pub record PilotDb : Type 0 where
  pub core : Db
  pub connections : List Connection
  pub runs : List ReportRun
  pub run_events : List RunEvent
  pub schedules : List Schedule
  -- The ids of the table of users.
  pub users : List ℕ

-- AMAZON_PILOT_ENABLED_MODULES.contains
pub is_pilot_module : String → Bool
is_pilot_module id = contains amazon_pilot_enabled_modules id

-- A catalogue row under the profile: what is required or on the list is enabled, and a module that
-- is not installed stays so.
abbrev pub in_profile : Module → Bool
in_profile m = m.required || is_pilot_module m.module_id

abbrev pub off_state : ModuleState → ModuleState
off_state ModuleState.not_installed = ModuleState.not_installed
off_state _ = ModuleState.disabled

abbrev pub profiled : Module → Module
profiled m = record m {
  state = if in_profile m then ModuleState.enabled else off_state m.state;
  enabled = in_profile m;
}

abbrev pub is_open : RunStatus → Bool
is_open RunStatus.queued = true
is_open RunStatus.requesting = true
is_open RunStatus.polling = true
is_open RunStatus.downloading = true
is_open RunStatus.parsing = true
is_open RunStatus.analysing = true
is_open _ = false

abbrev pub is_live : ConnectionMode → Bool
is_live live = true
is_live fixture = false

-- The join of a run with a live connection.
abbrev pub is_live_run : List Connection → ReportRun → Bool
is_live_run cs r = any (λ c. r.connection_id == c.id && is_live c.mode) cs

abbrev pub is_held : List Connection → ReportRun → Bool
is_held cs r = is_live_run cs r && is_open r.status

abbrev pub held : ℕ → ReportRun → ReportRun
held now r = record r {
  status = RunStatus.failed;
  failure_code = some "pilot_manual_gate_required";
  completed_at = some now;
  locked_at = none;
}

abbrev pub held_event : ReportRun → RunEvent
held_event r = record { run_id = r.id; status = RunStatus.failed }

abbrev pub stopped : Schedule → Schedule
stopped s = record s { enabled = false }

abbrev is_profile_entry : AuditEntry → Bool
is_profile_entry e =
    str_eq e.action "pilot.profile_apply"
    && str_eq e.idempotency_key "pilot-profile:amazon-read-only:v1"

-- INSERT … ON CONFLICT (action, idempotency_key) DO NOTHING; a row that is inserted refers to its
-- actor by a foreign key.
unfoldable pub audit_profile :
    List ℕ → ℕ → List AuditEntry → Result ModuleChangeError (List AuditEntry)
audit_profile users actor log =
    let entry : AuditEntry = record {
      actor_user_id = actor;
      action = "pilot.profile_apply";
      target_id = "amazon-read-only";
      idempotency_key = "pilot-profile:amazon-read-only:v1";
      new_state = none;
    } in
    if any is_profile_entry log
    then ok log
    else if any (λ u. u == actor) users
    then ok (entry ∷ log)
    else err ModuleChangeError.sqlx

pub record PilotStatus : Type 0 where
  pub enabled : Bool
  pub compliant : Bool
  pub active_modules : List String
  pub disabled_modules : List String
  pub unexpected_active_modules : List String
  pub missing_required_modules : List String
  pub automatic_schedules_enabled : ℕ

abbrev id_of : Module → String
id_of m = m.module_id

abbrev pub is_active : Module → Bool
is_active m = m.enabled

abbrev pub is_unexpected : Module → Bool
is_unexpected m = m.enabled && not (is_pilot_module m.module_id)

abbrev pub is_present : List Module → String → Bool
is_present ms id = any (λ m. str_eq m.module_id id && m.enabled) ms

abbrev pub is_nil {ℓ} : {A : Type ℓ} → List A → Bool
is_nil [] = true
is_nil (x ∷ xs) = false

pub active_modules : List Module → List String
active_modules ms = map id_of (select is_active ms)

pub unexpected_active_modules : List Module → List String
unexpected_active_modules ms = map id_of (select is_unexpected ms)

pub missing_required_modules : List Module → List String
missing_required_modules ms = select (λ id. not (is_present ms id)) amazon_pilot_enabled_modules

pub pilot_enabled : List String → Bool
pilot_enabled active = any (λ id. str_eq id "pilot.amazon_read_only") active

pub mutation_modules_disabled : List String → Bool
mutation_modules_disabled active =
    all (λ id. not (contains active id)) amazon_pilot_mutation_modules

pub automatic_schedules_enabled : List Schedule → ℕ
automatic_schedules_enabled ss = count_where (λ s. Schedule.enabled s) ss

unfoldable pub amazon_pilot_status : PilotDb → PilotStatus
amazon_pilot_status db =
    let ms = db.core.modules in
    let active = active_modules ms in
    let unexpected = unexpected_active_modules ms in
    let missing = missing_required_modules ms in
    let schedules = automatic_schedules_enabled db.schedules in
    record {
      enabled = pilot_enabled active;
      compliant =
          pilot_enabled active
          && mutation_modules_disabled active
          && is_nil unexpected
          && is_nil missing
          && schedules == 0;
      active_modules = active;
      disabled_modules = map id_of (select (λ m. not (is_active m)) ms);
      unexpected_active_modules = unexpected;
      missing_required_modules = missing;
      automatic_schedules_enabled = schedules;
    }

-- The database after the four writes of the transaction.
pub profiled_db : PilotDb → List AuditEntry → ℕ → PilotDb
profiled_db db log now =
    let core : Db = record (db.core) {
      modules = update_where (λ m. true) profiled db.core.modules;
      audit = log;
    } in
    record db {
      core = core;
      runs = update_where (is_held db.connections) (held now) db.runs;
      run_events = map held_event (select (is_held db.connections) db.runs) ++ db.run_events;
      schedules = update_where (λ s. Schedule.enabled s) stopped db.schedules;
    }

-- The CHECK constraints of the catalogue may refuse the first write, and the foreign key the last.
unfoldable pub apply_amazon_read_only_profile :
    PilotDb → ℕ → ℕ → Result ModuleChangeError (PilotStatus × PilotDb)
unfolding profiled_db audit_profile
apply_amazon_read_only_profile db actor now = do
  _ ← update_modules (λ m. true) profiled db.core.modules
  log ← audit_profile db.users actor db.core.audit
  let db' = profiled_db db log now
  ok (amazon_pilot_status db', db')
