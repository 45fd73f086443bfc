-- ===== src/Catalogue/Profile/Tests.antt =====
-- The profile at a concrete database.
use essentials_merchant.Base.{◌≡◌, refl, ◌+◌, ◌&&◌, ◌==◌, length, true, false, none, [], ◌∷◌, ok}
use essentials_merchant.Catalogue.{ModuleState, ModuleKind, Module}
use essentials_merchant.Catalogue.Profile.{
  PilotDb, PilotStatus, ConnectionMode, ReportRun, RunStatus, is_nil, amazon_pilot_status,
  apply_amazon_read_only_profile,
}
use essentials_merchant.Catalogue.Profile.Compliance.{
  status-compliant, requires_expected, has_all_expected, apply_profile_compliant,
}
use essentials_merchant.Catalogue.Profile.Holds.{live_runs, HoldsOnlyLive, apply_profile_holds}

abbrev shop : Module
shop = record {
  module_key = "commerce.vendure";
  module_id = "commerce.vendure";
  module_kind = ModuleKind.connector;
  state = ModuleState.enabled;
  enabled = true;
  required = false;
  dependencies = [];
  conflicts = [];
}

abbrev queued_run : ReportRun
queued_run = record {
  id = 4;
  connection_id = 1;
  status = RunStatus.queued;
  failure_code = none;
  completed_at = none;
  locked_at = none;
}

abbrev live_store : PilotDb
live_store = record {
  core = record { modules = shop ∷ []; health = []; audit = []; permissions = [] };
  connections = record { id = 1; mode = ConnectionMode.live } ∷ [];
  runs = queued_run ∷ [];
  run_events = [];
  schedules = record { id = 2; enabled = true } ∷ [];
  users = 7 ∷ [];
}

status-compliant_example :
    (amazon_pilot_status live_store).compliant
    ≡ is_nil (amazon_pilot_status live_store).unexpected_active_modules
      && is_nil (amazon_pilot_status live_store).missing_required_modules
      && (amazon_pilot_status live_store).automatic_schedules_enabled == 0
status-compliant_example = status-compliant live_store

apply_profile_compliant_example :
    (s : PilotStatus) × (db' : PilotDb) × (apply_amazon_read_only_profile live_store 7 100
      ≡ ok (s, db'))
    × (s.compliant
        ≡ requires_expected live_store.core.modules && has_all_expected live_store.core.modules)
    × (s.automatic_schedules_enabled ≡ 0)
apply_profile_compliant_example = apply_profile_compliant live_store 7 100 refl

apply_profile_holds_example :
    (s : PilotStatus) × (db' : PilotDb) × (apply_amazon_read_only_profile live_store 7 100
      ≡ ok (s, db'))
    × (live_runs db'.connections db'.runs ≡ 0)
    × HoldsOnlyLive live_store.connections live_store.runs db'.runs
    × (length db'.run_events
        ≡ live_runs live_store.connections live_store.runs + length live_store.run_events)
apply_profile_holds_example = apply_profile_holds live_store 7 100 refl
