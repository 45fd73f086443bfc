-- ===== src/Catalogue/Switch/Effect.antt =====
-- What `set_enabled` does, and the messages that `sanitize_message` lets through.
use essentials_merchant.Base.{
  String, Char, code, ◌≡◌, refl, inl, inr, Bool, true, false, not, ◌||◌, some, List, [], ◌∷◌, arith,
  ◌==◌, ◌≤◌, ok, find?, all, update_where, count_where, Bool-cases, count_chars, all_chars,
  map_chars, count_chars-take_chars, all_chars-take_chars, all_chars-map_chars,
}
use essentials_merchant.Catalogue.{
  Module, Db, row_check, update_modules, answers_to, is_enabled, enabled_or_false,
}
use essentials_merchant.Catalogue.Update.{IsChecked, update_modules-IsChecked, update_accepted}
use essentials_merchant.Catalogue.Switch.{
  set_enabled, switched, may_switch, sanitize_message, space_for_break,
}

abbrev pub is_break : Char → Bool
is_break c = code c == 13 || code c == 10

space_for_break-clean : (c : Char) → not (is_break (space_for_break c)) ≡ true
unfolding space_for_break
space_for_break-clean c = elim (Bool-cases (is_break c)) [
  | inl hit ↦ rw hit
  | inr miss ↦ rw (miss, miss)
]

-- A stored health message has at most 512 characters, and no line break.
pub sanitize_message_clean :
    (message : String)
    → (count_chars (sanitize_message message) ≤ 512)
      × (all_chars (λ c. not (is_break c)) (sanitize_message message) ≡ true)
unfolding sanitize_message
sanitize_message_clean message = (
  count_chars-take_chars 512 (map_chars space_for_break message),
  all_chars-take_chars _ 512 (map_chars space_for_break message)
      (all_chars-map_chars _ space_for_break message space_for_break-clean),
)

-- The CHECK constraints accept every row that the switch writes.
switch_accepted :
    (identifier : String) (on : Bool) (ms : List Module)
    → all (λ m. not (may_switch identifier on m) || row_check (switched on m)) ms ≡ true
switch_accepted identifier on [] = refl
switch_accepted identifier true (m ∷ ms) = ground (arith, switch_accepted identifier true ms)
switch_accepted identifier false (m ∷ ms) = ground (arith, switch_accepted identifier false ms)

found-switched :
    (identifier : String) (on : Bool) (ms : List Module) (m : Module)
    → IsChecked ms
    → find? (answers_to identifier) ms ≡ some m
    → enabled_or_false
        (find? (answers_to identifier) (update_where (may_switch identifier on) (switched on) ms))
      ≡ on || m.required
found-switched identifier on [] m h e = cc
found-switched identifier on (n ∷ ms) m h e =
    ground (arith, h.0, found-switched identifier on ms m h.1)

-- On a table that meets its constraints the switch always succeeds and keeps them, and the module
-- that the identifier names is then enabled just when that was asked for or it is required.
pub set_enabled_effect :
    (db : Db) (identifier : String) (on : Bool) (m : Module)
    → IsChecked db.modules
    → find? (answers_to identifier) db.modules ≡ some m
    → (changed : Bool) × (db' : Db) × (set_enabled db identifier on ≡ ok (changed, db'))
      × IsChecked db'.modules
      × (is_enabled db' identifier ≡ on || m.required)
unfolding set_enabled is_enabled
set_enabled_effect db identifier on m checked found = (
  count_where (may_switch identifier on) db.modules == 1,
  record db { modules = update_where (may_switch identifier on) (switched on) db.modules },
  rw (switch_ok db.modules),
  update_modules-IsChecked _ _ db.modules _ (switch_ok db.modules) checked,
  found-switched identifier on db.modules m checked found,
)
  where
    switch_ok :
        (ms : List Module)
        → update_modules (may_switch identifier on) (switched on) ms
          ≡ ok (update_where (may_switch identifier on) (switched on) ms)
    switch_ok ms = update_accepted _ _ ms (switch_accepted identifier on ms)
