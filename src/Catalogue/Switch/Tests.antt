-- ===== src/Catalogue/Switch/Tests.antt =====
-- Runs of the switch and of the record of a health check, and the theorems about them at concrete
-- databases.
use essentials_merchant.Base.{
  String, ◌≡◌, refl, not, all_chars, count_chars, ◌≤◌, Bool, true, false, none, some, [], ◌∷◌,
  Option, ok,
}
use essentials_merchant.Catalogue.{
  ModuleState, ModuleKind, Module, Db, HealthStatus, ConnectorHealth, is_enabled, update_modules,
}
use essentials_merchant.Catalogue.Update.{IsChecked}
use essentials_merchant.Catalogue.Transition.Invariant.{IsValid}
use essentials_merchant.Catalogue.Switch.{
  set_enabled, sanitize_message, record_connector_health, health_state, connector_health,
}
use essentials_merchant.Catalogue.Switch.Effect.{
  is_break, sanitize_message_clean, set_enabled_effect,
}
use essentials_merchant.Catalogue.Switch.Health.{record_connector_health-IsValid}

abbrev carrier : ModuleState → Bool → Module
carrier s on = record {
  module_key = "dhl";
  module_id = "shipping.dhl";
  module_kind = ModuleKind.connector;
  state = s;
  enabled = on;
  required = false;
  dependencies = [];
  conflicts = [];
}

abbrev checked : Bool → HealthStatus → Option String → ConnectorHealth
checked valid status message = record {
  module_key = "dhl";
  configuration_valid = valid;
  health_status = status;
  message = message;
}

abbrev store : Module → ConnectorHealth → Db
store m h = record { modules = m ∷ []; health = h ∷ []; audit = []; permissions = [] }

abbrev before : Db
before = store (carrier ModuleState.enabled true) (checked true HealthStatus.healthy none)

abbrev after : Db
after =
    store (carrier ModuleState.degraded true)
      (checked false HealthStatus.failed (some "no route  to host"))

run_degrade :
    record_connector_health before "shipping.dhl" false HealthStatus.failed "no route\r\nto host"
    ≡ ok (some (checked false HealthStatus.failed (some "no route  to host")), after)
unfolding record_connector_health update_modules health_state connector_health sanitize_message
run_degrade = refl

before-IsValid : IsValid before.modules
before-IsValid = record { distinct_keys = (tt, tt); checked = (refl, tt); closed = (λ _. tt, tt) }

record_connector_health-IsValid_example :
    IsValid after.modules × (is_enabled after "dhl" ≡ is_enabled before "dhl")
record_connector_health-IsValid_example =
    record_connector_health-IsValid before after "shipping.dhl" "dhl" false HealthStatus.failed
      "no route\r\nto host" (some (checked false HealthStatus.failed (some "no route  to host")))
      before-IsValid run_degrade

set_enabled_effect_example :
    (changed : Bool) × (db' : Db) × (set_enabled before "dhl" false ≡ ok (changed, db'))
    × IsChecked db'.modules
    × (is_enabled db' "dhl" ≡ false)
set_enabled_effect_example =
    set_enabled_effect before "dhl" false (carrier ModuleState.enabled true) (refl, tt) refl

sanitize_message_clean_example :
    (count_chars (sanitize_message "a\nb") ≤ 512)
    × (all_chars (λ c. not (is_break c)) (sanitize_message "a\nb") ≡ true)
sanitize_message_clean_example = sanitize_message_clean "a\nb"
