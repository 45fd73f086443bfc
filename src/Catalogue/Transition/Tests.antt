-- ===== src/Catalogue/Transition/Tests.antt =====
-- Runs of `transition_state`, and the theorems about it at concrete databases.
use essentials_merchant.Base.{◌≡◌, refl, Bool, true, false, some, List, [], ◌∷◌, ok, err}
use essentials_merchant.Catalogue.{
  ModuleState, ModuleKind, Module, Db, AuditEntry, ModuleTransition, ModuleChangeError,
}
use essentials_merchant.Catalogue.Transition.{
  existing_transition, effective_state, check_dependencies, check_conflicts, check_links,
  insert_audit, write_state, change_state, transition_state, state_change,
}
use essentials_merchant.Catalogue.{update_modules, enabled_in_transaction}
use essentials_merchant.Catalogue.Transition.Invariant.{IsValid, transition_state-IsValid}
use essentials_merchant.Catalogue.Transition.Idempotent.{
  transition_state-replay, transition_state-replay_elsewhere,
}

abbrev catalog : Module
catalog = record {
  module_key = "catalog";
  module_id = "core.catalog";
  module_kind = ModuleKind.core;
  state = ModuleState.enabled;
  enabled = true;
  required = true;
  dependencies = [];
  conflicts = [];
}

abbrev orders : ModuleState → Bool → Module
orders s on = record {
  module_key = "orders";
  module_id = "core.orders";
  module_kind = ModuleKind.optional;
  state = s;
  enabled = on;
  required = false;
  dependencies = "core.catalog" ∷ [];
  conflicts = [];
}

abbrev store : ModuleState → Bool → List AuditEntry → Db
store s on log = record {
  modules = catalog ∷ orders s on ∷ [];
  health = [];
  audit = log;
  permissions = [];
}

abbrev before : Db
before = store ModuleState.disabled false []

abbrev entry : AuditEntry
entry = record {
  actor_user_id = 7;
  action = state_change;
  target_id = "core.orders";
  idempotency_key = "k1";
  new_state = some ModuleState.enabled;
}

abbrev after : Db
after = store ModuleState.enabled true (entry ∷ [])

abbrev switched_on : ModuleTransition
switched_on = record { module_id = "core.orders"; state = ModuleState.enabled; duplicate = false }

run_enable : transition_state before 7 "orders" "enabled" "k1" ≡ ok (switched_on, after)
unfolding transition_state existing_transition change_state effective_state check_links
    check_dependencies enabled_in_transaction check_conflicts write_state update_modules
    insert_audit
run_enable = refl

run_required : transition_state before 7 "catalog" "disabled" "k2" ≡ err ModuleChangeError.required
unfolding transition_state existing_transition change_state
run_required = refl

before-IsValid : IsValid before.modules
before-IsValid = record {
  distinct_keys = ((refl, tt), (tt, tt));
  checked = (refl, (refl, tt));
  closed = (λ _. tt, (λ _. (refl, tt), tt));
}

transition_state-IsValid_example : IsValid after.modules
transition_state-IsValid_example =
    transition_state-IsValid before after 7 "orders" "enabled" "k1" switched_on before-IsValid
      run_enable

transition_state-replay_example :
    transition_state after 8 "orders" "disabled" "k1"
    ≡ ok (record switched_on { duplicate = true }, after)
transition_state-replay_example =
    transition_state-replay before after 7 8 "orders" "enabled" "disabled" "k1" switched_on
      run_enable refl

transition_state-replay_elsewhere_example :
    transition_state after 7 "catalog" "enabled" "k1"
    ≡ ok (
      record { module_id = "core.catalog"; state = ModuleState.enabled; duplicate = true },
      after,
    )
transition_state-replay_elsewhere_example =
    transition_state-replay_elsewhere before after 7 "orders" "catalog" "enabled" "k1" switched_on
      catalog run_enable refl refl
