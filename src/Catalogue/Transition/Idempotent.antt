-- ===== src/Catalogue/Transition/Idempotent.antt =====
-- Repeated requests under one idempotency key.
use essentials_merchant.Base.{
  ℕ, String, str_eq, str_eq_refl, ◌≡◌, refl, subst, inl, inr, Bool, true, ◌||◌, Option, none, some,
  List, [], ◌∷◌, arith, if◌then◌else◌, ok, find?, update_where, Bool-cases, >>=-eq-ok, >>-eq-ok,
  or_raise-eq-ok,
}
use essentials_merchant.Catalogue.{ModuleState, Module, Db, ModuleTransition, answers_to, has_key}
use essentials_merchant.Catalogue.Update.{update_modules-eq}
use essentials_merchant.Catalogue.Transition.{
  existing_transition, with_state, insert_audit, write_state, change_state, replay_or_change,
  transition_state, state_change,
}
use essentials_merchant.Catalogue.Transition.Invariant.{change_state-eq, write_state-eq}

-- Either of the two texts that name a target state.
abbrev pub IsTarget : String → Type 0
IsTarget target = (str_eq target "enabled" || str_eq target "disabled") ≡ true

-- The row that an identifier names, after the state of some rows has changed.
found-with_state :
    (identifier : String) (p : Module → Bool) (s : ModuleState) (ms : List Module) (m : Module)
    → find? (answers_to identifier) ms ≡ some m
    → (m' : Module) × (find? (answers_to identifier) (update_where p (with_state s) ms) ≡ some m')
      × (m'.module_id ≡ m.module_id)
found-with_state identifier p s [] m e = cc
found-with_state identifier p s (n ∷ ms) m e = elim (Bool-cases (answers_to identifier n)) [
  | inl hit ↦ (if◌then◌else◌ (p n) (with_state s n) n, ground arith, ground arith)
  | inr miss ↦
      let (m', found, same) = found-with_state identifier p s ms m (ground arith) in
      (m', ground arith, same)
]

-- The key of a change is on record afterwards, with the state that was written.
write_state-records :
    (db db' : Db) (actor : ℕ) (m : Module) (s : ModuleState) (key : String) (t : ModuleTransition)
    → write_state db actor m s key ≡ ok (t, db')
    → existing_transition db' key ≡ ok (some s)
unfolding write_state insert_audit existing_transition
write_state-records db db' actor m s key t e =
    ground (arith, str_eq_refl key, str_eq_refl state_change)

-- A request whose key is on record changes nothing and reports the recorded state, whichever module
-- and target it names.
transition_state-recorded :
    (db : Db) (actor : ℕ) (identifier target key : String) (m : Module) (s : ModuleState)
    → IsTarget target
    → find? (answers_to identifier) db.modules ≡ some m
    → existing_transition db key ≡ ok (some s)
    → transition_state db actor identifier target key
      ≡ ok (record { module_id = m.module_id; state = s; duplicate = true }, db)
unfolding transition_state
transition_state-recorded db actor identifier target key m s valid found recorded =
    rw (valid, found, recorded)

-- What `transition_state-Leaves` says, for a module and a look-up of the key that are at hand.
Leaves : Db → String → String → ModuleTransition → Type 0
Leaves db' identifier key t =
    (m : Module) × (find? (answers_to identifier) db'.modules ≡ some m)
    × (m.module_id ≡ t.module_id)
    × (existing_transition db' key ≡ ok (some t.state))

change_state-Leaves :
    (db db' : Db) (actor : ℕ) (identifier target key : String) (t : ModuleTransition) (m : Module)
    → find? (answers_to identifier) db.modules ≡ some m
    → change_state db actor m target key ≡ ok (t, db')
    → Leaves db' identifier key t
unfolding Leaves
change_state-Leaves db db' actor identifier target key t m found e =
    let (s, _, _, written) = change_state-eq db db' actor m target key t e in
    let (stored, result) = write_state-eq db db' actor m s key t written in
    let (same, _) = update_modules-eq _ _ _ _ stored in
    let (m', found', id) =
      found-with_state identifier (has_key m.module_key) s db.modules m found in
    (
      m',
      rw same found',
      rw result id,
      rw result (write_state-records db db' actor m s key t written),
    )

replay_or_change-Leaves :
    (db db' : Db) (actor : ℕ) (identifier target key : String) (t : ModuleTransition) (m : Module)
    (existing : Option ModuleState)
    → find? (answers_to identifier) db.modules ≡ some m
    → existing_transition db key ≡ ok existing
    → replay_or_change db actor m target key existing ≡ ok (t, db')
    → Leaves db' identifier key t
unfolding Leaves
replay_or_change-Leaves db db' actor identifier target key t m none found recorded e =
    change_state-Leaves db db' actor identifier target key t m found e
replay_or_change-Leaves db db' actor identifier target key t m (some s) found recorded e =
    subst (λ (r : ModuleTransition × Db). Leaves r.1 identifier key r.0)
      {x = (record { module_id = m.module_id; state = s; duplicate = true }, db)} {y = (t, db')}
      (ground arith) (m, found, refl, recorded)

-- What a successful request leaves behind: the module, with its key on record.
transition_state-Leaves :
    (db db' : Db) (actor : ℕ) (identifier target key : String) (t : ModuleTransition)
    → transition_state db actor identifier target key ≡ ok (t, db')
    → Leaves db' identifier key t
unfolding transition_state
transition_state-Leaves db db' actor identifier target key t e =
    let (_, known) = >>-eq-ok _ _ e in
    let (m, found, looked_up) = >>=-eq-ok _ _ known in
    let (existing, recorded, run) =
      >>=-eq-ok (existing_transition db key) (λ x. replay_or_change db actor m target key x)
        looked_up in
    replay_or_change-Leaves db db' actor identifier target key t m existing
      (or_raise-eq-ok _ _ found) recorded run

-- Once a request has succeeded, every request for that module under the same key succeeds again,
-- changes nothing and reports the state of the first one as a duplicate, even when it asks for the
-- other state.
pub transition_state-replay :
    (db db' : Db) (actor other : ℕ) (identifier target again key : String) (t : ModuleTransition)
    → transition_state db actor identifier target key ≡ ok (t, db')
    → IsTarget again
    → transition_state db' other identifier again key ≡ ok (record t { duplicate = true }, db')
unfolding Leaves
transition_state-replay db db' actor other identifier target again key t e valid =
    let (m, found, id, recorded) = transition_state-Leaves db db' actor identifier target key t e in
    rw (transition_state-recorded db' other identifier again key m t.state valid found recorded)
      (rw id)

-- Once a request has succeeded, a request for any module under the same key is reported as a
-- duplicate in the state of the first request, and the module that it names is left as it is.
pub transition_state-replay_elsewhere :
    (db db' : Db) (actor : ℕ) (identifier elsewhere target key : String) (t : ModuleTransition)
    (m : Module)
    → transition_state db actor identifier target key ≡ ok (t, db')
    → IsTarget target
    → find? (answers_to elsewhere) db'.modules ≡ some m
    → transition_state db' actor elsewhere target key
      ≡ ok (record { module_id = m.module_id; state = t.state; duplicate = true }, db')
unfolding Leaves
transition_state-replay_elsewhere db db' actor identifier elsewhere target key t m e valid found =
    let (_, _, _, recorded) = transition_state-Leaves db db' actor identifier target key t e in
    transition_state-recorded db' actor elsewhere target key m t.state valid found recorded
