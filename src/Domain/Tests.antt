-- ===== src/Domain/Tests.antt =====
-- Invoice states, and VAT over numbers that count ten-thousandths.
use essentials_merchant.Base.{
  ℕ, ◌≡◌, refl, ◌+◌, ◌-◌, ◌*◌, ◌/◌, ◌==◌, leb, true, some, List, [], ◌∷◌, arith,
}
use essentials_merchant.Domain.Decimal.{Decimals, DecimalLaws}
use essentials_merchant.Domain.InvoiceStatus.{
  InvoiceStatus, parse, as_str, can_transition_to, Leads, parse-eq-some, transitions_acyclic,
}
use essentials_merchant.Domain.Vat.{calc_vat, round_money, vat_breakdown}
use essentials_merchant.Domain.Vat.Breakdown.{row_sum, item_sum, IsDescending, vat_breakdown_groups}

parse-eq-some_example :
    (parse (as_str InvoiceStatus.paid) ≡ some InvoiceStatus.paid)
    × (parse "paid" ≡ some InvoiceStatus.paid → "paid" ≡ as_str InvoiceStatus.paid)
parse-eq-some_example = parse-eq-some "paid" InvoiceStatus.paid

sent_is_permitted : can_transition_to InvoiceStatus.draft InvoiceStatus.sent ≡ true
unfolding can_transition_to
sent_is_permitted = refl

transitions_acyclic_example : ¬ Leads InvoiceStatus.sent InvoiceStatus.draft
transitions_acyclic_example =
    transitions_acyclic InvoiceStatus.draft InvoiceStatus.sent sent_is_permitted

abbrev to_cent : ℕ → ℕ
to_cent n = (n + 50) / 100 * 100

-- Amounts that are not negative.
abbrev sample_decimals : Decimals
sample_decimals = record {
  Decimal = ℕ;
  zero = 0;
  hundred = 1000000;
  add = λ a b. a + b;
  mul = λ a b. a * b / 10000;
  div = λ a b. a * 10000 / b;
  neg = λ a. 0 - a;
  abs = λ a. a;
  round_half_up = to_cent;
  eq = λ a b. a == b;
  le = λ a b. leb a b;
}

sample_laws : DecimalLaws sample_decimals
sample_laws = record {
  add_comm = λ (a b : ℕ). omega arith;
  add_assoc = λ (a b c : ℕ). omega arith;
  zero-add = λ (a : ℕ). omega arith;
  round_idem = λ (a : ℕ). omega arith;
  round-add = λ (a b : ℕ) h k. omega arith;
  eq_iff = λ (a b : ℕ). (λ h. ground arith, λ h. ground arith);
  le_total = λ (a b : ℕ) h. ground arith;
  le_trans = λ (a b c : ℕ) h k. ground arith;
  le_antisymm = λ (a b : ℕ) h k. ground arith;
}

-- 19 % on 1.99: 0.38.
vat_standard : calc_vat sample_decimals 19900 190000 ≡ (3800, 23700)
unfolding calc_vat round_money
vat_standard = refl

in_cents : round_money sample_decimals 19900 ≡ 19900
unfolding round_money
in_cents = refl

abbrev items : List (ℕ × ℕ)
items = (19900, 190000) ∷ (5000, 70000) ∷ (10000, 190000) ∷ []

vat_breakdown_groups_example :
    IsDescending sample_decimals (vat_breakdown sample_decimals items)
    × (row_sum sample_decimals (λ row. row.net_total) 190000 (vat_breakdown sample_decimals items)
        ≡ item_sum sample_decimals (λ net r. net) 190000 items)
    × (row_sum sample_decimals (λ row. row.vat_total) 190000 (vat_breakdown sample_decimals items)
        ≡ item_sum sample_decimals (λ net r. (calc_vat sample_decimals net r).0) 190000 items)
    × (row_sum sample_decimals (λ row. row.gross_total) 190000 (vat_breakdown sample_decimals items)
        ≡ item_sum sample_decimals (λ net r. (calc_vat sample_decimals net r).1) 190000 items)
vat_breakdown_groups_example = vat_breakdown_groups sample_decimals sample_laws items 190000
