-- ===== src/Catalogue/Switch.antt =====
-- `set_enabled`, `record_connector_health` and `connector_health` of
-- backend/crates/db/src/modules.rs.
pub mod Effect
pub mod Health
mod Tests
use essentials_merchant.Base.{
  String, Char, code, str_eq, str_eq_refl, ◌≡◌, refl, ◌∙◌, inl, inr, Bool, true, false, not, ◌&&◌,
  ◌||◌, Option, none, some, List, [], ◌∷◌, arith, if◌then◌else◌, ◌==◌, ◌≤◌, Result, ok, err, ◌>>=◌,
  find?, any, all, count_where, update_where, All, Bool-cases, map_chars, take_chars, count_chars,
  all_chars, count_chars-take_chars, all_chars-take_chars, all_chars-map_chars,
}
use essentials_merchant.Catalogue.{
  ModuleState, Module, HealthStatus, ConnectorHealth, Db, ModuleChangeError, is_state_on, row_check,
  update_modules, answers_to, has_key, is_enabled, enabled_or_false,
}
use essentials_merchant.Catalogue.Update.{IsChecked}

abbrev switched : Bool → Module → Module
switched on m = record m {
  state = if on then ModuleState.enabled else ModuleState.disabled;
  enabled = on;
}

abbrev may_switch : String → Bool → Module → Bool
may_switch identifier on m = answers_to identifier m && not (m.required && not on)

-- The result says whether exactly one row was written.
pub set_enabled : Db → String → Bool → Result ModuleChangeError (Bool × Db)
set_enabled db identifier on = do
  modules ← update_modules (may_switch identifier on) (switched on) db.modules
  ok (count_where (may_switch identifier on) db.modules == 1, record db { modules = modules })

space_for_break : Char → Char
space_for_break c = if code c == 13 || code c == 10 then " " else c

pub sanitize_message : String → String
unfolding space_for_break
sanitize_message message = take_chars 512 (map_chars space_for_break message)

pub connector_health : Db → String → Option ConnectorHealth
connector_health db identifier =
    find?
      (λ h.
        any
          (λ m.
            str_eq m.module_key h.module_key
            && (str_eq h.module_key identifier || str_eq m.module_id identifier))
          db.modules)
      db.health

abbrev health_key : String → ConnectorHealth → Bool
health_key key h = str_eq h.module_key key

-- The CASE over the state of the row that is written.
health_state : Bool → Bool → ModuleState → ModuleState
health_state true true s = ModuleState.enabled
health_state true false s = ModuleState.degraded
health_state false true ModuleState.needs_configuration = ModuleState.disabled
health_state false false ModuleState.not_installed = ModuleState.not_installed
health_state false false s = ModuleState.needs_configuration
health_state false true s = s

abbrev after_health : Bool → Module → Module
after_health valid m = record m { state = health_state m.enabled valid m.state }

abbrev recorded : Bool → HealthStatus → String → ConnectorHealth → ConnectorHealth
recorded valid status message h = record h {
  configuration_valid = valid;
  health_status = status;
  message = some (sanitize_message message);
}

write_health :
    Db
    → Bool
    → HealthStatus
    → String
    → String
    → Result ModuleChangeError (Option ConnectorHealth × Db)
write_health db valid status message key =
    if count_where (health_key key) db.health == 0 then ok (none, db) else do
      modules ← update_modules (has_key key) (after_health valid) db.modules
      let db' : Db = record db {
        modules = modules;
        health = update_where (health_key key) (recorded valid status message) db.health;
      }
      ok (connector_health db' key, db')

pub record_connector_health :
    Db
    → String
    → Bool
    → HealthStatus
    → String
    → Result ModuleChangeError (Option ConnectorHealth × Db)
unfolding write_health
record_connector_health db identifier valid status message =
    elim (find? (answers_to identifier) db.modules) [
      | none ↦ ok (none, db)
      | some m ↦ write_health db valid status message m.module_key
    ]
