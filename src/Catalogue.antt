-- ===== src/Catalogue.antt =====
-- The module catalogue, backend/crates/db/src/modules.rs: the tables that it reads and writes and
-- the queries that its operations share. A table is the list of its rows, `essentials_modules` in
-- the order of `module_id`, by which the queries sort. Columns that no operation here reads
-- (display name, version, manifests, timestamps) are left out. Columns under a CHECK constraint of
-- backend/crates/db/migrations are data types.
pub mod Update
pub mod Transition
pub mod Switch
pub mod Profile
use essentials_merchant.Base.{
  ℕ, String, str_eq, Bool, true, false, not, ◌&&◌, ◌||◌, Option, none, some, List, [], ◌∷◌,
  if◌then◌else◌, Result, ok, err, find?, any, all, update_where, ◌==◌,
}

pub data ModuleState : Type 0 where
  not_installed needs_configuration disabled enabled degraded : ModuleState

pub data ModuleKind : Type 0 where
  core optional connector : ModuleKind

-- `ModuleStateRow`, with the `enabled` column of the table.
pub record Module : Type 0 where
  pub module_key : String
  pub module_id : String
  pub module_kind : ModuleKind
  pub state : ModuleState
  pub enabled : Bool
  pub required : Bool
  pub dependencies : List String
  pub conflicts : List String

pub data HealthStatus : Type 0 where
  not_configured healthy degraded failed : HealthStatus

pub record ConnectorHealth : Type 0 where
  pub module_key : String
  pub configuration_valid : Bool
  pub health_status : HealthStatus
  pub message : Option String

-- A row of `administrative_audit_log`; `new_state` is `details->>'new_state'`.
pub record AuditEntry : Type 0 where
  pub actor_user_id : ℕ
  pub action : String
  pub target_id : String
  pub idempotency_key : String
  pub new_state : Option ModuleState

-- A row of `user_module_permissions`.
pub record Permission : Type 0 where
  pub user_id : ℕ
  pub module_key : String
  pub granted : Bool

pub record Db : Type 0 where
  pub modules : List Module
  pub health : List ConnectorHealth
  pub audit : List AuditEntry
  pub permissions : List Permission

pub record ModuleTransition : Type 0 where
  pub module_id : String
  pub state : ModuleState
  pub duplicate : Bool

-- `sqlx` stands for every refusal by the database: a CHECK or UNIQUE constraint, or a NULL that is
-- decoded as a value.
pub data ModuleChangeError : Type 0 where
  not_found required not_installed needs_configuration : ModuleChangeError
  missing_dependency conflict : String → ModuleChangeError
  sqlx : ModuleChangeError

abbrev pub is_state_on : ModuleState → Bool
is_state_on ModuleState.enabled = true
is_state_on ModuleState.degraded = true
is_state_on _ = false

abbrev pub is_plainly_enabled : ModuleState → Bool
is_plainly_enabled ModuleState.enabled = true
is_plainly_enabled _ = false

abbrev pub iff_bool : Bool → Bool → Bool
iff_bool true b = b
iff_bool false b = not b

-- The two CHECK constraints of migration 0011 on a row: a required module is plainly enabled, and
-- `enabled` says that the state is 'enabled' or 'degraded'.
abbrev pub row_check : Module → Bool
row_check m =
    (not m.required || (is_plainly_enabled m.state && m.enabled))
    && iff_bool m.enabled (is_state_on m.state)

-- UPDATE … WHERE: refused when a row that it writes breaks a CHECK.
pub update_modules :
    (Module → Bool) → (Module → Module) → List Module → Result ModuleChangeError (List Module)
update_modules p f ms =
    if all (λ m. not (p m) || row_check (f m)) ms then ok (update_where p f ms) else err sqlx

-- WHERE module_key = $1 OR module_id = $1
abbrev pub answers_to : String → Module → Bool
answers_to identifier m = str_eq m.module_key identifier || str_eq m.module_id identifier

abbrev pub has_key : String → Module → Bool
has_key key m = str_eq m.module_key key

abbrev pub has_id : String → Module → Bool
has_id id m = str_eq m.module_id id

abbrev pub enabled_or_false : Option Module → Bool
enabled_or_false none = false
enabled_or_false (some m) = m.enabled

unfoldable pub is_enabled : Db → String → Bool
is_enabled db identifier = enabled_or_false (find? (answers_to identifier) db.modules)

-- The value of `enabled_in_transaction`, on the rows of the table.
abbrev pub enabled_at : List Module → String → Bool
enabled_at ms id = enabled_or_false (find? (has_id id) ms)

unfoldable pub enabled_in_transaction : Db → String → Bool
enabled_in_transaction db id = enabled_at db.modules id

abbrev pub contains : List String → String → Bool
contains xs s = any (λ x. str_eq x s) xs

-- The JOIN with `user_module_permissions`: a granted permission of the user for the module.
abbrev pub has_grant : Db → ℕ → Module → Bool
has_grant db user_id m =
    any (λ p. str_eq p.module_key m.module_key && p.user_id == user_id && p.granted) db.permissions

unfoldable pub user_can_access : Db → ℕ → String → String → Bool
unfolding is_enabled
user_can_access db user_id user_role identifier =
    if str_eq user_role "administrator"
    then is_enabled db identifier
    else any (λ m. answers_to identifier m && m.enabled && has_grant db user_id m) db.modules
