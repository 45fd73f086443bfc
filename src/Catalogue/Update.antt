-- ===== src/Catalogue/Update.antt =====
-- Laws of an UPDATE of `essentials_modules` that keeps the keys, for every operation that writes it.
use essentials_merchant.Base.{
  String, str_eq, ◌≡◌, inl, inr, Bool, true, false, not, ◌||◌, List, [], ◌∷◌, arith, ok, all,
  update_where, All, Bool-cases,
}
use essentials_merchant.Catalogue.{Module, row_check, update_modules}

-- No two rows have one `module_key`, the primary key.
abbrev pub HasDistinctKeys : List Module → Type 0
HasDistinctKeys [] = Unit
HasDistinctKeys (m ∷ ms) =
    All (λ n. str_eq n.module_key m.module_key ≡ false) ms × HasDistinctKeys ms

abbrev pub IsChecked : List Module → Type 0
IsChecked = All (λ m. row_check m ≡ true)

abbrev pub KeepsKey : (Module → Module) → Type 0
KeepsKey f = (m : Module) → (f m).module_key ≡ m.module_key

-- A row that no UPDATE may write: the CHECK constraints refuse it.
checked-update_where :
    (p : Module → Bool) (f : Module → Module) (ms : List Module)
    → all (λ m. not (p m) || row_check (f m)) ms ≡ true
    → IsChecked ms
    → IsChecked (update_where p f ms)
checked-update_where p f [] ok_all h = tt
checked-update_where p f (m ∷ ms) ok_all h = (
  elim (Bool-cases (p m)) [ inl hit ↦ rw hit (ground arith) | inr miss ↦ rw miss h.0 ],
  checked-update_where p f ms (ground arith) h.1,
)

other_keys-update_where :
    (p : Module → Bool) (f : Module → Module) (k : String) (ms : List Module)
    → KeepsKey f
    → All (λ n. str_eq n.module_key k ≡ false) ms
    → All (λ n. str_eq n.module_key k ≡ false) (update_where p f ms)
other_keys-update_where p f k [] keeps h = tt
other_keys-update_where p f k (m ∷ ms) keeps h =
    (ground (arith, keeps m), other_keys-update_where p f k ms keeps h.1)

HasDistinctKeys-update_where :
    (p : Module → Bool) (f : Module → Module) (ms : List Module)
    → KeepsKey f
    → HasDistinctKeys ms
    → HasDistinctKeys (update_where p f ms)
HasDistinctKeys-update_where p f [] keeps h = tt
HasDistinctKeys-update_where p f (m ∷ ms) keeps h = (
  elim (Bool-cases (p m)) [
    | inl hit ↦ rw (hit, keeps m) (other_keys-update_where p f m.module_key ms keeps h.0)
    | inr miss ↦ rw miss (other_keys-update_where p f m.module_key ms keeps h.0)
  ],
  HasDistinctKeys-update_where p f ms keeps h.1,
)

-- An UPDATE that succeeds has written the rows that it selects, each within the constraints.
pub update_modules-eq :
    (p : Module → Bool) (f : Module → Module) (ms out : List Module)
    → update_modules p f ms ≡ ok out
    → (out ≡ update_where p f ms) × (all (λ m. not (p m) || row_check (f m)) ms ≡ true)
unfolding update_modules
update_modules-eq p f ms out e = ground arith

pub update_modules-IsChecked :
    (p : Module → Bool) (f : Module → Module) (ms out : List Module)
    → update_modules p f ms ≡ ok out
    → IsChecked ms
    → IsChecked out
update_modules-IsChecked p f ms out e h =
    let (same, good) = update_modules-eq p f ms out e in
    rw same (checked-update_where p f ms good h)

pub update_modules-HasDistinctKeys :
    (p : Module → Bool) (f : Module → Module) (ms out : List Module)
    → KeepsKey f
    → update_modules p f ms ≡ ok out
    → HasDistinctKeys ms
    → HasDistinctKeys out
update_modules-HasDistinctKeys p f ms out keeps e h =
    rw (update_modules-eq p f ms out e).0 (HasDistinctKeys-update_where p f ms keeps h)

pub update_accepted :
    (p : Module → Bool) (f : Module → Module) (ms : List Module)
    → all (λ m. not (p m) || row_check (f m)) ms ≡ true
    → update_modules p f ms ≡ ok (update_where p f ms)
unfolding update_modules
update_accepted p f ms e = rw e
