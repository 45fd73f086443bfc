-- ===== src/ManualImport/Cells.antt =====
-- The cells of a row: counts, percentages and amounts of money.
mod Tests
use essentials_merchant.Base.{
  ℕ, zero, suc, ◌+◌, Bool, true, false, not, ◌&&◌, ◌||◌, Option, none, some, List, [], ◌∷◌, ◌++◌,
  if◌then◌else◌, ◌==◌, ltb, any, select, Result, ok, err, ◌>>=◌, raise_if, ◌>>◌, sort_by,
}
use essentials_merchant.ManualImport.{Text, ImportError, is_char, is_nil, put_first, concat}
use essentials_merchant.ManualImport.Locale.{Decimals, parse_locale_decimal, trim, is_space}
use essentials_merchant.ManualImport.Currency.{
  CurrencyError, currency_conflict, is_currency_token, normalize_currency, text_eq,
}

pub data CellError : Type 0 where
  number : ImportError → CellError
  currency : CurrencyError → CellError
  not_whole over_hundred : CellError

abbrev pub or_number {ℓ} : {A : Type ℓ} → Result ImportError A → Result CellError A
or_number (ok a) = ok a
or_number (err e) = err (number e)

abbrev pub or_currency {ℓ} : {A : Type ℓ} → Result CurrencyError A → Result CellError A
or_currency (ok a) = ok a
or_currency (err e) = err (currency e)

abbrev pub get_cell : List Text → ℕ → Option Text
get_cell [] i = none
get_cell (t ∷ ts) zero = some t
get_cell (t ∷ ts) (suc i) = get_cell ts i

-- `filter(|value| !value.is_empty())` of the trimmed cell
abbrev pub non_empty : Option Text → Option Text
non_empty none = none
non_empty (some t) = if is_nil (trim t) then none else some (trim t)

abbrev pub optional_cell : List Text → ℕ → Option Text
optional_cell row i = non_empty (get_cell row i)

abbrev pub cell_of : List Text → Option ℕ → Option Text
cell_of row none = none
cell_of row (some i) = optional_cell row i

-- The comparisons of the code with zero and with a hundred.
pub record CellDecimals {ℓ} (D : Type ℓ) : Type ℓ where
  pub decimals : Decimals D
  pub is_whole : D → Bool
  pub exceeds_hundred : D → Bool

abbrev pub text_ltb : Text → Text → Bool
text_ltb [] [] = false
text_ltb [] (d ∷ ds) = true
text_ltb (c ∷ cs) [] = false
text_ltb (c ∷ cs) (d ∷ ds) = let rest = text_ltb cs ds in ltb c d || (c == d && rest)

abbrev pub dedup_after : Text → List Text → List Text
dedup_after t [] = t ∷ []
dedup_after t (u ∷ us) =
    let same = dedup_after t us in
    let next = t ∷ dedup_after u us in if text_eq t u then same else next

abbrev pub dedup : List Text → List Text
dedup [] = []
dedup (t ∷ ts) = dedup_after t ts

abbrev pub split_at_space : Text → List Text
split_at_space [] = [] ∷ []
split_at_space (c ∷ cs) =
    let rest = split_at_space cs in if is_space c then [] ∷ rest else put_first c rest

abbrev pub split_whitespace : Text → List Text
split_whitespace t = select (λ w. not (is_nil w)) (split_at_space t)

-- The last part and those before it.
abbrev pub split_last : Text → List Text → List Text × Text
split_last t [] = ([], t)
split_last t (u ∷ us) = let rest = split_last u us in (t ∷ rest.0, rest.1)

abbrev pub symbol_currencies : Text → List Text
symbol_currencies t =
    (if any (is_char 8364) t then (b'E' ∷ b'U' ∷ b'R' ∷ []) ∷ [] else [])
    ++ (if any (is_char 163) t then (b'G' ∷ b'B' ∷ b'P' ∷ []) ∷ [] else [])

abbrev pub without_symbols : Text → Text
without_symbols t = select (λ c. not (c == 8364) && not (c == 163) && not (c == 36)) t

-- The amount's text and the code beside it: before it, else behind it.
unfoldable pub token_of : Text → List Text → Result CurrencyError (Text × Option Text)
unfolding is_currency_token normalize_currency
token_of t [] = ok (t, none)
token_of t (p ∷ ps) =
    let (before, last) = split_last p ps in
    if is_currency_token p
    then (normalize_currency p >>= λ code. ok (concat ps, some code))
    else if is_currency_token last
    then (normalize_currency last >>= λ code. ok (concat before, some code))
    else ok (t, none)

abbrev pub listed : Option Text → List Text
listed none = []
listed (some t) = t ∷ []

abbrev pub single_currency : List Text → Result CurrencyError (Option Text)
single_currency [] = ok none
single_currency (t ∷ []) = ok (some t)
single_currency (t ∷ u ∷ us) = err (currency_conflict t u)

module _ {ℓ} {D : Type ℓ} (numbers : CellDecimals D) where
  unfoldable pub optional_flat_decimal : List Text → Option ℕ → Bool → Result CellError (Option D)
  unfolding parse_locale_decimal
  optional_flat_decimal row index whole_number = decimal_of (cell_of row index)
    where
      decimal_of : Option Text → Result CellError (Option D)
      decimal_of none = ok none
      decimal_of (some t) = do
        value ← or_number (parse_locale_decimal numbers.decimals t false)
        raise_if (whole_number && not (numbers.is_whole value)) not_whole
        ok (some value)

  unfoldable pub optional_flat_percent : List Text → Option ℕ → Bool → Result CellError (Option D)
  unfolding parse_locale_decimal
  optional_flat_percent row index bounded_to_100 = percent_of (cell_of row index)
    where
      percent_of : Option Text → Result CellError (Option D)
      percent_of none = ok none
      percent_of (some t) = do
        value ← or_number (parse_locale_decimal numbers.decimals t true)
        raise_if (bounded_to_100 && numbers.exceeds_hundred value) over_hundred
        ok (some value)

  unfoldable pub parse_count_cell : Text → Result CellError D
  unfolding parse_locale_decimal
  parse_count_cell t = do
    value ← or_number (parse_locale_decimal numbers.decimals t false)
    raise_if (not (numbers.is_whole value)) not_whole
    ok value

  unfoldable pub parse_money_cell : Text → Result CellError (D × Option Text)
  unfolding parse_locale_decimal token_of
  parse_money_cell cell = do
    let text = without_symbols (trim cell)
    (amount_text, code) ← or_currency (token_of text (split_whitespace text))
    let found = dedup (sort_by text_ltb (symbol_currencies (trim cell) ++ listed code))
    currency_code ← or_currency (single_currency found)
    amount ← or_number (parse_locale_decimal numbers.decimals amount_text false)
    ok (amount, currency_code)
