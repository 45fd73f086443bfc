-- ===== src/Catalogue/Transition/Invariant.antt =====
-- What a successful change of state does to the catalogue.
use essentials_merchant.Base.{
  ℕ, String, str_eq, eq_iff, ◌≡◌, refl, ap, ◌∙◌, subst, >>-eq-ok, or_raise-eq-ok, inl, inr, Bool,
  true, false, Option, none, some, List, [], ◌∷◌, arith, ok, find?, update_where, All, Bool-cases,
  >>=-eq-ok,
}
use essentials_merchant.Catalogue.{
  ModuleState, Module, Db, ModuleTransition, is_state_on, update_modules, has_key, has_id,
  enabled_at, enabled_in_transaction, contains,
}
use essentials_merchant.Catalogue.Update.{
  HasDistinctKeys, IsChecked, update_modules-eq, update_modules-IsChecked,
  update_modules-HasDistinctKeys,
}
use essentials_merchant.Catalogue.Transition.{
  existing_transition, effective_state, check_dependencies, check_links, depends_on, with_state,
  insert_audit, write_state, change_state, replay_or_change, transition_state,
}

abbrev pub AreEnabled : List Module → List String → Type 0
AreEnabled ms = All (λ d. enabled_at ms d ≡ true)

-- If the module is enabled, so is each of its dependencies.
abbrev pub HasDependencies : List Module → Module → Type 0
HasDependencies ms m = m.enabled ≡ true → AreEnabled ms m.dependencies

abbrev pub Owns : Module → Module → Type 0
Owns m n = has_key m.module_key n ≡ true → n ≡ m

pub record IsValid (ms : List Module) : Type 0 where
  pub distinct_keys : HasDistinctKeys ms
  pub checked : IsChecked ms
  pub closed : All (HasDependencies ms) ms

Owns-rest :
    (m : Module) (ms : List Module)
    → All (λ n. str_eq n.module_key m.module_key ≡ false) ms
    → All (Owns m) ms
Owns-rest m [] h = tt
Owns-rest m (n ∷ ms) h = (ground arith, Owns-rest m ms h.1)

Owns-other :
    (m n : Module) (ms : List Module) (p : Module → Bool)
    → All (λ k. str_eq k.module_key n.module_key ≡ false) ms
    → find? p ms ≡ some m
    → Owns m n
Owns-other m n [] p h e = cc
Owns-other m n (k ∷ ms) p h e = ground (
  arith,
  Owns-other m n ms p h.1,
  eq_iff n.module_key k.module_key,
  eq_iff k.module_key n.module_key,
)

-- The row that a query found is the only one under its key.
pub find?-Owns :
    (p : Module → Bool) (ms : List Module) (m : Module)
    → HasDistinctKeys ms
    → find? p ms ≡ some m
    → All (Owns m) ms
find?-Owns p [] m h e = tt
find?-Owns p (n ∷ ms) m h e = elim (Bool-cases (p n)) [
  | inl hit ↦ ground (arith, Owns-rest n ms h.0)
  | inr miss ↦ ground (arith, Owns-other m n ms p h.0, find?-Owns p ms m h.1)
]

-- Turning rows on takes no module away from those that are enabled.
enabled_at-turn_on :
    (p : Module → Bool) (s : ModuleState) (ms : List Module) (d : String)
    → is_state_on s ≡ true
    → enabled_at ms d ≡ true
    → enabled_at (update_where p (with_state s) ms) d ≡ true
enabled_at-turn_on p s [] d on h = h
enabled_at-turn_on p s (m ∷ ms) d on h = ground (arith, enabled_at-turn_on p s ms d on)

-- Turning off the module `m` leaves every other enabled module as it was.
enabled_at-turn_off :
    (m : Module) (s : ModuleState) (ms : List Module) (d : String)
    → All (Owns m) ms
    → has_id d m ≡ false
    → enabled_at ms d ≡ true
    → enabled_at (update_where (has_key m.module_key) (with_state s) ms) d ≡ true
enabled_at-turn_off m s [] d own ne h = h
enabled_at-turn_off m s (n ∷ ms) d own ne h = elim (Bool-cases (has_key m.module_key n)) [
  | inl hit ↦ ground (
    arith,
    ap (λ (k : Module). has_id d k) (own.0 hit),
    hit,
    enabled_at-turn_off m s ms d own.1 ne,
  )
  | inr miss ↦ ground (arith, enabled_at-turn_off m s ms d own.1 ne)
]

AreEnabled-turn_on :
    (p : Module → Bool) (s : ModuleState) (ms : List Module) (ds : List String)
    → is_state_on s ≡ true
    → AreEnabled ms ds
    → AreEnabled (update_where p (with_state s) ms) ds
AreEnabled-turn_on p s ms [] on h = tt
AreEnabled-turn_on p s ms (d ∷ ds) on h =
    (enabled_at-turn_on p s ms d on h.0, AreEnabled-turn_on p s ms ds on h.1)

AreEnabled-turn_off :
    (m : Module) (s : ModuleState) (ms : List Module) (ds : List String)
    → All (Owns m) ms
    → contains ds m.module_id ≡ false
    → AreEnabled ms ds
    → AreEnabled (update_where (has_key m.module_key) (with_state s) ms) ds
AreEnabled-turn_off m s ms [] own ne h = tt
AreEnabled-turn_off m s ms (d ∷ ds) own ne h = (
  enabled_at-turn_off m s ms d own (ground (arith, eq_iff d m.module_id, eq_iff m.module_id d)) h.0,
  AreEnabled-turn_off m s ms ds own (ground arith) h.1,
)

-- The rows of `xs`, a part of the table `ms`, after `m` is turned on.
closed-turn_on :
    (m : Module) (s : ModuleState) (ms xs : List Module)
    → is_state_on s ≡ true
    → All (Owns m) xs
    → AreEnabled ms m.dependencies
    → All (HasDependencies ms) xs
    → let after = update_where (has_key m.module_key) (with_state s) in
      All (HasDependencies (after ms)) (after xs)
closed-turn_on m s ms [] on own ready h = tt
closed-turn_on m s ms (n ∷ xs) on own ready h = elim (Bool-cases (has_key m.module_key n)) [
  | inl hit ↦ rw (hit) (
    λ _. rw (own.0 hit) (AreEnabled-turn_on _ s ms m.dependencies on ready),
    closed-turn_on m s ms xs on own.1 ready h.1,
  )
  | inr miss ↦ rw (miss) (
    λ e. AreEnabled-turn_on _ s ms n.dependencies on (h.0 e),
    closed-turn_on m s ms xs on own.1 ready h.1,
  )
]

-- The same after `m` is turned off, when no enabled row depends on it.
closed-turn_off :
    (m : Module) (s : ModuleState) (ms xs : List Module)
    → is_state_on s ≡ false
    → All (Owns m) ms
    → find? (depends_on m.module_id) xs ≡ none
    → All (HasDependencies ms) xs
    → let after = update_where (has_key m.module_key) (with_state s) in
      All (HasDependencies (after ms)) (after xs)
closed-turn_off m s ms [] off own free h = tt
closed-turn_off m s ms (n ∷ xs) off own free h = elim (Bool-cases (has_key m.module_key n)) [
  | inl hit ↦ rw (hit) (λ e. cc, closed-turn_off m s ms xs off own (ground arith) h.1)
  | inr miss ↦ rw (miss) (
    λ e. AreEnabled-turn_off m s ms n.dependencies own (ground arith) (h.0 e),
    closed-turn_off m s ms xs off own (ground arith) h.1,
  )
]

check_dependencies-AreEnabled :
    (db : Db) (ds : List String) → check_dependencies db ds ≡ ok tt → AreEnabled db.modules ds
unfolding check_dependencies enabled_in_transaction
check_dependencies-AreEnabled db [] e = tt
check_dependencies-AreEnabled db (d ∷ ds) e =
    (ground arith, check_dependencies-AreEnabled db ds (ground arith))

-- The links that were checked are what keeps the dependencies of enabled modules enabled.
check_links-closed :
    (db : Db) (m : Module) (target : String) (s : ModuleState)
    → All (Owns m) db.modules
    → is_state_on s ≡ str_eq target "enabled"
    → check_links db m target ≡ ok tt
    → All (HasDependencies db.modules) db.modules
    → let after = update_where (has_key m.module_key) (with_state s) db.modules in
      All (HasDependencies after) after
unfolding check_links
check_links-closed db m target s own on e h = elim (Bool-cases (str_eq target "enabled")) [
  | inl wanted ↦
      closed-turn_on m s db.modules db.modules (on ∙ wanted) own
        (check_dependencies-AreEnabled db m.dependencies (>>-eq-ok _ _ (rw wanted at e)).0) h
  | inr unwanted ↦ closed-turn_off m s db.modules db.modules (on ∙ unwanted) own (ground arith) h
]

-- What a successful run of the writes has done.
pub write_state-eq :
    (db db' : Db) (actor : ℕ) (m : Module) (s : ModuleState) (key : String) (t : ModuleTransition)
    → write_state db actor m s key ≡ ok (t, db')
    → (update_modules (has_key m.module_key) (with_state s) db.modules ≡ ok db'.modules)
      × (t ≡ record { module_id = m.module_id; state = s; duplicate = false })
unfolding write_state insert_audit
write_state-eq db db' actor m s key t e = ground arith

-- The state that is written, and what was checked before.
pub change_state-eq :
    (db db' : Db) (actor : ℕ) (m : Module) (target key : String) (t : ModuleTransition)
    → change_state db actor m target key ≡ ok (t, db')
    → (s : ModuleState) × (effective_state db m target ≡ ok s)
      × (check_links db m target ≡ ok tt)
      × (write_state db actor m s key ≡ ok (t, db'))
unfolding change_state
change_state-eq db db' actor m target key t e =
    let (_, installed) = >>-eq-ok _ _ e in
    let (_, computed) = >>-eq-ok _ _ installed in
    let (s, state, linked) = >>=-eq-ok _ _ computed in
    let (links, written) = >>-eq-ok _ _ linked in (s, state, links, written)

-- The state written for "enabled" is one of the two that count as on; for "disabled" it is off.
effective_state-on :
    (db : Db) (m : Module) (target : String) {s : ModuleState}
    → effective_state db m target ≡ ok s
    → is_state_on s ≡ str_eq target "enabled"
unfolding effective_state
effective_state-on db m target e = ground arith

-- The catalogue stays valid under every change that succeeds.
change_state-IsValid :
    (db db' : Db) (actor : ℕ) (m : Module) (target key : String) (t : ModuleTransition)
    → All (Owns m) db.modules
    → IsValid db.modules
    → change_state db actor m target key ≡ ok (t, db')
    → IsValid db'.modules
change_state-IsValid db db' actor m target key t own v e =
    let (s, state, links, written) = change_state-eq db db' actor m target key t e in
    let (stored, _) = write_state-eq db db' actor m s key t written in
    let (same, _) = update_modules-eq _ _ _ _ stored in
    record {
      distinct_keys = update_modules-HasDistinctKeys _ _ _ _ (λ k. refl) stored v.distinct_keys;
      checked = update_modules-IsChecked _ _ _ _ stored v.checked;
      closed = rw same (
          check_links-closed db m target s own (effective_state-on db m target state) links
            v.closed);
    }

replay_or_change-IsValid :
    (db db' : Db) (actor : ℕ) (m : Module) (target key : String) (t : ModuleTransition)
    (existing : Option ModuleState)
    → All (Owns m) db.modules
    → IsValid db.modules
    → replay_or_change db actor m target key existing ≡ ok (t, db')
    → IsValid db'.modules
replay_or_change-IsValid db db' actor m target key t none own v e =
    change_state-IsValid db db' actor m target key t own v e
replay_or_change-IsValid db db' actor m target key t (some s) own v e =
    subst (λ (d : Db). IsValid d.modules) {x = db} {y = db'} (ground arith) v

-- If the keys are distinct, the CHECK constraints hold and every enabled module's dependencies are
-- enabled, then the same holds after each change of state that succeeds.
pub transition_state-IsValid :
    (db db' : Db) (actor : ℕ) (identifier target key : String) (t : ModuleTransition)
    → IsValid db.modules
    → transition_state db actor identifier target key ≡ ok (t, db')
    → IsValid db'.modules
unfolding transition_state
transition_state-IsValid db db' actor identifier target key t v e =
    let (_, known) = >>-eq-ok _ _ e in
    let (m, found, looked_up) = >>=-eq-ok _ _ known in
    let (existing, _, run) =
      >>=-eq-ok (existing_transition db key) (λ x. replay_or_change db actor m target key x)
        looked_up in
    replay_or_change-IsValid db db' actor m target key t existing
      (find?-Owns _ db.modules m v.distinct_keys (or_raise-eq-ok _ _ found)) v run
