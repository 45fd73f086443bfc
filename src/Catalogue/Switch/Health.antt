-- ===== src/Catalogue/Switch/Health.antt =====
-- What `record_connector_health` does to the catalogue.
use essentials_merchant.Base.{
  String, ◌≡◌, refl, subst, ◌⊎◌, inl, inr, Bool, Option, List, [], ◌∷◌, arith, ok, find?,
  update_where, All, Bool-cases, Option-cases,
}
use essentials_merchant.Catalogue.{
  Module, HealthStatus, ConnectorHealth, Db, answers_to, has_key, is_enabled, enabled_or_false,
  update_modules,
}
use essentials_merchant.Catalogue.Update.{
  update_modules-eq, update_modules-IsChecked, update_modules-HasDistinctKeys,
}
use essentials_merchant.Catalogue.Transition.Invariant.{IsValid, AreEnabled, HasDependencies}
use essentials_merchant.Catalogue.Switch.{after_health, write_health, record_connector_health}

-- The result of a health check turns no module on or off.
found-after_health :
    (q : Module → Bool) (p : Module → Bool) (valid : Bool) (ms : List Module)
    → ((m : Module) → q (after_health valid m) ≡ q m)
    → enabled_or_false (find? q (update_where p (after_health valid) ms))
      ≡ enabled_or_false (find? q ms)
found-after_health q p valid [] same = refl
found-after_health q p valid (m ∷ ms) same =
    ground (arith, same m, found-after_health q p valid ms same)

AreEnabled-after_health :
    (p : Module → Bool) (valid : Bool) (ms : List Module) (ds : List String)
    → AreEnabled ms ds
    → AreEnabled (update_where p (after_health valid) ms) ds
AreEnabled-after_health p valid ms [] h = tt
AreEnabled-after_health p valid ms (d ∷ ds) h = (
  rw (found-after_health _ p valid ms (λ m. refl)) h.0,
  AreEnabled-after_health p valid ms ds h.1,
)

closed-after_health :
    (p : Module → Bool) (valid : Bool) (ms xs : List Module)
    → All (HasDependencies ms) xs
    → All
        (HasDependencies (update_where p (after_health valid) ms))
        (update_where p (after_health valid) xs)
closed-after_health p valid ms [] h = tt
closed-after_health p valid ms (m ∷ xs) h = elim (Bool-cases (p m)) [
  | inl hit ↦ rw hit (
    λ e. AreEnabled-after_health p valid ms m.dependencies (h.0 e),
    closed-after_health p valid ms xs h.1,
  )
  | inr miss ↦ rw miss (
    λ e. AreEnabled-after_health p valid ms m.dependencies (h.0 e),
    closed-after_health p valid ms xs h.1,
  )
]

-- What an operation keeps: the validity of the catalogue, and which modules are enabled.
abbrev pub KeepsCatalogue : Db → Db → Type 0
KeepsCatalogue db db' =
    (IsValid db.modules → IsValid db'.modules)
    × ((identifier : String) → is_enabled db' identifier ≡ is_enabled db identifier)

KeepsCatalogue-written :
    (db db' : Db) (valid : Bool) (key : String)
    → update_modules (has_key key) (after_health valid) db.modules ≡ ok db'.modules
    → KeepsCatalogue db db'
unfolding is_enabled
KeepsCatalogue-written db db' valid key e =
    let (same, _) = update_modules-eq _ _ _ _ e in
    (
      λ v. record {
        distinct_keys = update_modules-HasDistinctKeys _ _ _ _ (λ k. refl) e v.distinct_keys;
        checked = update_modules-IsChecked _ _ _ _ e v.checked;
        closed = rw same (closed-after_health (has_key key) valid db.modules db.modules v.closed);
      },
      λ identifier. rw same (found-after_health _ (has_key key) valid db.modules (λ m. refl)),
    )

write_health-eq :
    (db db' : Db) (valid : Bool) (status : HealthStatus) (message key : String)
    (found : Option ConnectorHealth)
    → write_health db valid status message key ≡ ok (found, db')
    → (db ≡ db') ⊎ (update_modules (has_key key) (after_health valid) db.modules ≡ ok db'.modules)
unfolding write_health
write_health-eq db db' valid status message key found e = ground arith

record_connector_health-eq :
    (db db' : Db) (identifier : String) (valid : Bool) (status : HealthStatus) (message : String)
    (found : Option ConnectorHealth)
    → record_connector_health db identifier valid status message ≡ ok (found, db')
    → (db ≡ db')
      ⊎ ((key : String) × (update_modules (has_key key) (after_health valid) db.modules
            ≡ ok db'.modules))
unfolding record_connector_health
record_connector_health-eq db db' identifier valid status message found e =
    elim (Option-cases (find? (answers_to identifier) db.modules)) [
      | inl missing ↦ inl (ground arith)
      | inr (m, named) ↦
          elim (write_health-eq db db' valid status message m.module_key found (ground arith)) [
            | inl same ↦ inl same
            | inr written ↦ inr (m.module_key, written)
          ]
    ]

record_connector_health-KeepsCatalogue :
    (db db' : Db) (identifier : String) (valid : Bool) (status : HealthStatus) (message : String)
    (found : Option ConnectorHealth)
    → record_connector_health db identifier valid status message ≡ ok (found, db')
    → KeepsCatalogue db db'
record_connector_health-KeepsCatalogue db db' identifier valid status message found e =
    elim (record_connector_health-eq db db' identifier valid status message found e) [
      | inl same ↦ subst (KeepsCatalogue db) same (λ v. v, λ i. refl)
      | inr (key, written) ↦ KeepsCatalogue-written db db' valid key written
    ]

-- A health check that is recorded keeps the catalogue valid, and turns no module on or off.
pub record_connector_health-IsValid :
    (db db' : Db) (identifier queried : String) (valid : Bool) (status : HealthStatus)
    (message : String) (found : Option ConnectorHealth)
    → IsValid db.modules
    → record_connector_health db identifier valid status message ≡ ok (found, db')
    → IsValid db'.modules × (is_enabled db' queried ≡ is_enabled db queried)
record_connector_health-IsValid db db' identifier queried valid status message found v e =
    let kept =
      record_connector_health-KeepsCatalogue db db' identifier valid status message found e in
    (kept.0 v, kept.1 queried)
