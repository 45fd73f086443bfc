-- ===== src/Domain/Vat.antt =====
-- backend/crates/domain/src/vat.rs, over the numbers of rust_decimal.
pub mod Breakdown
use essentials_merchant.Base.{
  ◌≡◌, refl, ap, ◌∙◌, Bool, true, false, not, List, [], ◌∷◌, if◌then◌else◌,
}
use essentials_merchant.Domain.Decimal.{Decimals, DecimalLaws}

pub record VatBreakdownRow (d : Decimals) : Type 0 where
  pub rate_percent : d.Decimal
  pub net_total : d.Decimal
  pub vat_total : d.Decimal
  pub gross_total : d.Decimal

module _ (d : Decimals) where
  open d use {Decimal, add, mul, div, hundred, round_half_up, eq, le}

  unfoldable pub round_money : Decimal → Decimal
  round_money value = round_half_up value

  unfoldable pub calc_vat : Decimal → Decimal → Decimal × Decimal
  calc_vat net rate_percent =
      let vat = round_money (div (mul net rate_percent) hundred) in (vat, round_money (add net vat))

  abbrev pub add_amounts : VatBreakdownRow d → Decimal → Decimal → Decimal → VatBreakdownRow d
  add_amounts row net vat gross = record row {
    net_total = add row.net_total net;
    vat_total = add row.vat_total vat;
    gross_total = add row.gross_total gross;
  }

  abbrev pub new_row : Decimal → Decimal → Decimal → Decimal → VatBreakdownRow d
  new_row rate net vat gross = record {
    rate_percent = rate;
    net_total = net;
    vat_total = vat;
    gross_total = gross;
  }

  -- The row of the rate is found and changed, or a row is pushed.
  pub add_item :
      Decimal → Decimal → Decimal → Decimal → List (VatBreakdownRow d) → List (VatBreakdownRow d)
  add_item rate net vat gross [] = new_row rate net vat gross ∷ []
  add_item rate net vat gross (row ∷ rows) =
      if eq row.rate_percent rate
      then add_amounts row net vat gross ∷ rows
      else row ∷ add_item rate net vat gross rows

  pub collect : List (VatBreakdownRow d) → List (Decimal × Decimal) → List (VatBreakdownRow d)
  unfolding add_item calc_vat
  collect rows [] = rows
  collect rows ((net, rate) ∷ items) =
      let (vat, gross) = calc_vat net rate in collect (add_item rate net vat gross rows) items

  -- `sort_by_key(Reverse(rate_percent))`, a stable sort.
  pub insert_row : VatBreakdownRow d → List (VatBreakdownRow d) → List (VatBreakdownRow d)
  insert_row row [] = row ∷ []
  insert_row row (other ∷ rows) =
      if le other.rate_percent row.rate_percent
      then row ∷ other ∷ rows
      else other ∷ insert_row row rows

  pub sort_rows : List (VatBreakdownRow d) → List (VatBreakdownRow d)
  unfolding insert_row
  sort_rows [] = []
  sort_rows (row ∷ rows) = insert_row row (sort_rows rows)

  unfoldable pub vat_breakdown : List (Decimal × Decimal) → List (VatBreakdownRow d)
  unfolding collect sort_rows
  vat_breakdown line_items = sort_rows (collect [] line_items)

  -- For numbers that obey the laws and a net amount in cents, the gross amount is the exact sum of
  -- net and VAT, all in cents.
  pub calc_vat_exact :
      (laws : DecimalLaws d) (net rate : Decimal)
      → round_money net ≡ net
      → let (vat, gross) = calc_vat net rate in
        (gross ≡ add net vat) × (round_money vat ≡ vat) × (round_money gross ≡ gross)
  unfolding calc_vat round_money
  calc_vat_exact laws net rate h =
      let vat = round_half_up (div (mul net rate) hundred) in
      let rounded = laws.round_idem (div (mul net rate) hundred) in
      (laws.round-add net vat h rounded, rounded, laws.round_idem (add net vat))
