-- ===== src/ManualImport/Cells/Tests.antt =====
-- Cells with dates and money, over small readers of dates and of decimals.
use essentials_merchant.Base.{
  ℕ, ◌≡◌, refl, inl, arith, if◌then◌else◌, true, false, not, ◌==◌, ◌+◌, ◌*◌, Option, none, some, [],
  ◌∷◌, length, ok, err,
}
use essentials_merchant.ManualImport.{Text, ImportError}
use essentials_merchant.ManualImport.Currency.{currency_conflict}
use essentials_merchant.ManualImport.Dates.{
  NaiveDate, DateFormat, ambiguous_date, day_month_year_slashes, month_day_year_slashes,
  parse_flat_date, parse_flat_date_unique,
}
use essentials_merchant.ManualImport.Cells.{
  CellDecimals, currency, parse_money_cell, optional_flat_decimal,
}

-- A month and a day of one digit each; a digit stands for itself.
abbrev read_date : Text → DateFormat → Option ℕ
read_date (a ∷ s ∷ b ∷ []) day_month_year_slashes = if s == b'/' then some (100 * b + a) else none
read_date (a ∷ s ∷ b ∷ []) month_day_year_slashes = if s == b'/' then some (100 * a + b) else none
read_date _ _ = none

abbrev new_year : ℕ
new_year = 4949

abbrev small_dates : NaiveDate ℕ
small_dates = record { parse_from_str = read_date; differ = λ a b. not (a == b) }

abbrev small_numbers : CellDecimals ℕ
small_numbers = record {
  decimals = record { from_str_exact = λ t. some (length t); is_negative = λ d. false };
  is_whole = λ d. true;
  exceeds_hundred = λ d. false;
}

abbrev eur : Text
eur = b'E' ∷ b'U' ∷ b'R' ∷ []

abbrev usd : Text
usd = b'U' ∷ b'S' ∷ b'D' ∷ []

swapped_date : parse_flat_date small_dates (b'1' ∷ b'/' ∷ b'2' ∷ []) ≡ err ambiguous_date
unfolding parse_flat_date
swapped_date = refl

symbol_behind : parse_money_cell small_numbers (b'5' ∷ b' ' ∷ 8364 ∷ []) ≡ ok (1, some eur)
unfolding parse_money_cell essentials_merchant.ManualImport.normalize_decimal_separators
symbol_behind = refl

code_before :
    parse_money_cell small_numbers (b'u' ∷ b'S' ∷ b'd' ∷ b' ' ∷ b'5' ∷ []) ≡ ok (1, some usd)
unfolding parse_money_cell essentials_merchant.ManualImport.normalize_decimal_separators
code_before = refl

dollar_has_no_code : parse_money_cell small_numbers (b'$' ∷ b'5' ∷ []) ≡ ok (1, none)
unfolding parse_money_cell essentials_merchant.ManualImport.normalize_decimal_separators
dollar_has_no_code = refl

code_and_symbol :
    parse_money_cell small_numbers (b'U' ∷ b'S' ∷ b'D' ∷ b' ' ∷ b'5' ∷ 8364 ∷ [])
    ≡ err (currency (currency_conflict eur usd))
unfolding parse_money_cell
code_and_symbol = refl

empty_cell : optional_flat_decimal small_numbers ((b' ' ∷ []) ∷ []) (some 0) true ≡ ok none
unfolding optional_flat_decimal
empty_cell = refl

parse_flat_date_unique_example : new_year ≡ 100 * b'1' + b'1'
unfolding parse_flat_date
parse_flat_date_unique_example =
    parse_flat_date_unique small_dates (λ a b h. ground (arith, h)) (b'1' ∷ b'/' ∷ b'1' ∷ [])
      (100 * b'1' + b'1') new_year refl refl refl refl (inl refl)
