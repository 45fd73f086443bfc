-- ===== src/Catalogue/Profile/Compliance.antt =====
-- When the catalogue is compliant, and that applying the profile makes it so.
use essentials_merchant.Base.{
  Result-cases, ℕ, String, str_eq, eq_iff, ◌≡◌, refl, inl, inr, Bool, true, false, not, ◌&&◌, ◌||◌,
  List, [], ◌∷◌, map, arith, ◌==◌, ok, any, all, select, update_where, count_where, All, Bool-cases,
}
use essentials_merchant.Catalogue.{AuditEntry, Module, row_check, contains, has_id}
use essentials_merchant.Catalogue.Update.{update_accepted}
use essentials_merchant.Catalogue.Profile.{
  audit_profile, PilotDb, PilotStatus, Schedule, amazon_pilot_enabled_modules,
  amazon_pilot_mutation_modules, profiled, is_pilot_module, is_unexpected, is_present, is_active,
  id_of, is_nil, stopped, active_modules, unexpected_active_modules, missing_required_modules,
  pilot_enabled, mutation_modules_disabled, automatic_schedules_enabled, profiled_db,
  amazon_pilot_status, apply_amazon_read_only_profile,
}

-- Every module of the profile is in the table.
pub has_all_expected : List Module → Bool
has_all_expected ms = all (λ id. any (has_id id) ms) amazon_pilot_enabled_modules

-- Every required module belongs to the profile.
pub requires_expected : List Module → Bool
requires_expected ms = all (λ m. not m.required || is_pilot_module m.module_id) ms

profile_accepted : (ms : List Module) → all (λ m. not true || row_check (profiled m)) ms ≡ true
profile_accepted [] = refl
profile_accepted (m ∷ ms) = elim (Bool-cases (is_pilot_module m.module_id)) [
  | inl known ↦ rw known (ground (arith, profile_accepted ms))
  | inr other ↦ rw other (ground (arith, profile_accepted ms))
]

-- A module outside the profile is not active once nothing unexpected is.
active_expected :
    (ms : List Module) (id : String)
    → is_nil (map id_of (select is_unexpected ms)) ≡ true
    → is_pilot_module id ≡ false
    → contains (map id_of (select is_active ms)) id ≡ false
active_expected [] id h e = refl
active_expected (m ∷ ms) id h e = ground (arith, active_expected ms id, eq_iff m.module_id id)

present_active :
    (ms : List Module) (id : String)
    → is_present ms id ≡ any (λ x. str_eq x id) (map id_of (select is_active ms))
present_active [] id = refl
present_active (m ∷ ms) id = ground (arith, present_active ms id)

present-profiled :
    (ms : List Module) (id : String)
    → is_pilot_module id ≡ true
    → is_present (update_where (λ m. true) profiled ms) id ≡ any (has_id id) ms
present-profiled [] id h = refl
present-profiled (m ∷ ms) id h = ground (arith, present-profiled ms id h, eq_iff m.module_id id)

-- A part of the list of pilot modules, once the profile is applied: what is missing is what the
-- table does not hold.
missing-profiled :
    (ms : List Module) (ids : List String)
    → All (λ id. is_pilot_module id ≡ true) ids
    → is_nil (select (λ id. not (is_present (update_where (λ m. true) profiled ms) id)) ids)
      ≡ all (λ id. any (has_id id) ms) ids
missing-profiled ms [] h = refl
missing-profiled ms (id ∷ ids) h =
    ground (arith, present-profiled ms id h.0, missing-profiled ms ids h.1)

unexpected-profiled :
    (ms : List Module)
    → is_nil (map id_of (select is_unexpected (update_where (λ m. true) profiled ms)))
      ≡ requires_expected ms
unfolding requires_expected
unexpected-profiled [] = refl
unexpected-profiled (m ∷ ms) = ground (arith, unexpected-profiled ms)

schedules_stopped :
    (ss : List Schedule)
    → count_where (λ s. Schedule.enabled s) (update_where (λ s. Schedule.enabled s) stopped ss) ≡ 0
schedules_stopped [] = refl
schedules_stopped (s ∷ ss) = ground (arith, schedules_stopped ss)

mutations_off :
    (ms : List Module) (ids : List String)
    → is_nil (map id_of (select is_unexpected ms)) ≡ true
    → All (λ id. is_pilot_module id ≡ false) ids
    → all (λ id. not (contains (map id_of (select is_active ms)) id)) ids ≡ true
mutations_off ms [] h a = refl
mutations_off ms (id ∷ ids) h a = rw (active_expected ms id h a.0) (mutations_off ms ids h a.1)

mutations_foreign : All (λ id. is_pilot_module id ≡ false) amazon_pilot_mutation_modules
unfolding is_pilot_module
mutations_foreign =
    (refl, (refl, (refl, (refl, (refl, (refl, (refl, (refl, (refl, (refl, tt))))))))))

pilots_listed : All (λ id. is_pilot_module id ≡ true) amazon_pilot_enabled_modules
unfolding is_pilot_module
pilots_listed = (refl, (refl, (refl, (refl, (refl, (refl, (refl, tt)))))))

-- The last of the seven is the pilot itself.
pilot_present :
    (ms : List Module)
    → is_nil (select (λ id. not (is_present ms id)) amazon_pilot_enabled_modules) ≡ true
    → is_present ms "pilot.amazon_read_only" ≡ true
pilot_present ms h = elim (Bool-cases (is_present ms "pilot.amazon_read_only")) [
  | inl here ↦ here
  | inr gone ↦ ground (arith, gone, h)
]

unexpected_active-mutations :
    (ms : List Module)
    → is_nil (unexpected_active_modules ms) ≡ true
    → mutation_modules_disabled (active_modules ms) ≡ true
unfolding unexpected_active_modules mutation_modules_disabled active_modules
unexpected_active-mutations ms h =
    mutations_off ms amazon_pilot_mutation_modules h mutations_foreign

missing-pilot :
    (ms : List Module)
    → is_nil (missing_required_modules ms) ≡ true
    → pilot_enabled (active_modules ms) ≡ true
unfolding missing_required_modules pilot_enabled active_modules
missing-pilot ms h = rw (← present_active ms "pilot.amazon_read_only") (pilot_present ms h)

-- Two of the five conditions of compliance follow from the others: the profile is in force exactly
-- when nothing outside it is active, nothing of it is missing and no schedule runs.
pub status-compliant :
    (db : PilotDb)
    → let s = amazon_pilot_status db in
      s.compliant
      ≡ is_nil s.unexpected_active_modules
        && is_nil s.missing_required_modules
        && s.automatic_schedules_enabled == 0
unfolding amazon_pilot_status
status-compliant db =
    ground (arith, unexpected_active-mutations db.core.modules, missing-pilot db.core.modules)

profiled_db-unexpected :
    (db : PilotDb) (log : List AuditEntry) (now : ℕ)
    → is_nil (amazon_pilot_status (profiled_db db log now)).unexpected_active_modules
      ≡ requires_expected db.core.modules
unfolding amazon_pilot_status profiled_db unexpected_active_modules
profiled_db-unexpected db log now = unexpected-profiled db.core.modules

profiled_db-missing :
    (db : PilotDb) (log : List AuditEntry) (now : ℕ)
    → is_nil (amazon_pilot_status (profiled_db db log now)).missing_required_modules
      ≡ has_all_expected db.core.modules
unfolding amazon_pilot_status profiled_db missing_required_modules has_all_expected
profiled_db-missing db log now =
    missing-profiled db.core.modules amazon_pilot_enabled_modules pilots_listed

profiled_db-schedules :
    (db : PilotDb) (log : List AuditEntry) (now : ℕ)
    → (amazon_pilot_status (profiled_db db log now)).automatic_schedules_enabled ≡ 0
unfolding amazon_pilot_status profiled_db automatic_schedules_enabled
profiled_db-schedules db log now = schedules_stopped db.schedules

audit_profile_total :
    (users : List ℕ) (actor : ℕ) (log : List AuditEntry)
    → any (λ u. u == actor) users ≡ true
    → (log' : List AuditEntry) × (audit_profile users actor log ≡ ok log')
unfolding audit_profile
audit_profile_total users actor log known = elim (Result-cases (audit_profile users actor log)) [
  | inl good ↦ good
  | inr (refused, e) ↦ absurd (ground (arith, known, e))
]

pub profile_applied :
    (db : PilotDb) (actor now : ℕ)
    → any (λ u. u == actor) db.users ≡ true
    → (log : List AuditEntry) × (apply_amazon_read_only_profile db actor now
        ≡ ok (amazon_pilot_status (profiled_db db log now), profiled_db db log now))
unfolding apply_amazon_read_only_profile
profile_applied db actor now known =
    let (log, e) = audit_profile_total db.users actor db.core.audit known in
    (
      log,
      rw
          (
            update_accepted (λ m. true) profiled db.core.modules (profile_accepted db.core.modules),
            e,
          )
          refl,
    )

-- Applying the profile succeeds for an actor that is a user. Afterwards it is compliant exactly when the table holds each of
-- its seven modules and every required module is one of them, and no schedule is enabled.
pub apply_profile_compliant :
    (db : PilotDb) (actor now : ℕ)
    → any (λ u. u == actor) db.users ≡ true
    → (s : PilotStatus) × (db' : PilotDb) × (apply_amazon_read_only_profile db actor now
        ≡ ok (s, db'))
      × (s.compliant ≡ requires_expected db.core.modules && has_all_expected db.core.modules)
      × (s.automatic_schedules_enabled ≡ 0)
apply_profile_compliant db actor now known =
    let (log, done) = profile_applied db actor now known in
    (
      amazon_pilot_status (profiled_db db log now),
      profiled_db db log now,
      done,
      ground (
        arith,
        status-compliant (profiled_db db log now),
        profiled_db-unexpected db log now,
        profiled_db-missing db log now,
        profiled_db-schedules db log now,
      ),
      profiled_db-schedules db log now,
    )
