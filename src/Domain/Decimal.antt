-- ===== src/Domain/Decimal.antt =====
-- What the program uses of the rust_decimal crate: its numbers as a parameter, and the laws that
-- its results obey as long as they fit 28 digits.
use essentials_merchant.Base.{◌≡◌, ◌↔◌, Bool, true, false}

pub record Decimals : Type 1 where
  pub Decimal : Type 0
  pub zero : Decimal
  pub hundred : Decimal
  pub add : Decimal → Decimal → Decimal
  pub mul : Decimal → Decimal → Decimal
  pub div : Decimal → Decimal → Decimal
  pub neg : Decimal → Decimal
  pub abs : Decimal → Decimal
  -- `round_dp_with_strategy(2, MidpointAwayFromZero)`
  pub round_half_up : Decimal → Decimal
  pub eq : Decimal → Decimal → Bool
  pub le : Decimal → Decimal → Bool

-- Sums are exact, a sum of amounts in cents is one, and the order is that of the numbers.
pub record DecimalLaws (d : Decimals) : Type 0 where
  pub add_comm : (a b : d.Decimal) → d.add a b ≡ d.add b a
  pub add_assoc : (a b c : d.Decimal) → d.add (d.add a b) c ≡ d.add a (d.add b c)
  pub zero-add : (a : d.Decimal) → d.add d.zero a ≡ a
  pub round_idem : (a : d.Decimal) → d.round_half_up (d.round_half_up a) ≡ d.round_half_up a
  pub round-add :
      (a b : d.Decimal)
      → d.round_half_up a ≡ a
      → d.round_half_up b ≡ b
      → d.round_half_up (d.add a b) ≡ d.add a b
  pub eq_iff : (a b : d.Decimal) → (d.eq a b ≡ true) ↔ (a ≡ b)
  pub le_total : (a b : d.Decimal) → d.le a b ≡ false → d.le b a ≡ true
  pub le_trans : (a b c : d.Decimal) → d.le a b ≡ true → d.le b c ≡ true → d.le a c ≡ true
  pub le_antisymm : (a b : d.Decimal) → d.le a b ≡ true → d.le b a ≡ true → a ≡ b
