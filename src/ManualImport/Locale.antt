-- ===== src/ManualImport/Locale.antt =====
-- A cell with a number: signs, percent, parentheses and spaces around the separators. The decimals of
-- rust_decimal are a parameter: exact reading, the test for a negative value and for a fraction.
use essentials_merchant.Base.{
  ℕ, Bool, true, false, not, ◌&&◌, ◌||◌, Option, [], ◌∷◌, if◌then◌else◌, ◌==◌, leb, all, any,
  select, Result, ok, err, ◌>>=◌, raise_if, ◌>>◌, or_raise,
}
use essentials_merchant.ManualImport.{
  Text, ImportError, unexpected_percent, not_a_decimal, no_digits, not_exact, negative, is_digit,
  is_char, is_nil, normalize_decimal_separators,
}

-- The property White_Space.
abbrev pub is_space : ℕ → Bool
is_space c =
    (leb 9 c && leb c 13)
    || c == 32
    || c == 133
    || c == 160
    || c == 5760
    || (leb 8192 c && leb c 8202)
    || c == 8232
    || c == 8233
    || c == 8239
    || c == 8287
    || c == 12288

-- `trim_start_matches`
abbrev pub trim_start : (ℕ → Bool) → Text → Text
trim_start p [] = []
trim_start p (c ∷ cs) = let rest = trim_start p cs in if p c then rest else c ∷ cs

-- `trim_end_matches`
abbrev pub trim_end : (ℕ → Bool) → Text → Text
trim_end p [] = []
trim_end p (c ∷ cs) = let rest = trim_end p cs in if p c && is_nil rest then [] else c ∷ rest

abbrev pub trim : Text → Text
trim t = trim_end is_space (trim_start is_space t)

abbrev pub starts : ℕ → Text → Bool
starts c [] = false
starts c (d ∷ ds) = d == c

abbrev pub ends : ℕ → Text → Bool
ends c [] = false
ends c (d ∷ []) = d == c
ends c (d ∷ e ∷ es) = ends c (e ∷ es)

abbrev pub drop_last : Text → Text
drop_last [] = []
drop_last (d ∷ []) = []
drop_last (d ∷ e ∷ es) = d ∷ drop_last (e ∷ es)

abbrev pub drop_first : Text → Text
drop_first [] = []
drop_first (d ∷ ds) = ds

abbrev pub in_parentheses : Text → Bool
in_parentheses t = starts b'(' t && ends b')' t

-- `retain`: no white space, no apostrophe.
abbrev pub is_kept : ℕ → Bool
is_kept c = not (is_space c) && not (c == 39) && not (c == 8217)

abbrev pub is_sign : ℕ → Bool
is_sign c = c == b'+' || c == b'-'

abbrev pub is_number_char : ℕ → Bool
is_number_char c = is_digit c || is_sign c || c == b'.' || c == b','

abbrev pub without_percent : Bool → Text → Result ImportError Text
without_percent true t = ok (trim (trim_end (is_char b'%') t))
without_percent false t = if any (is_char b'%') t then err unexpected_percent else ok t

-- The text that is given to `from_str_exact`.
unfoldable pub signed_text : Text → Bool → Result ImportError Text
signed_text t allow_percent = do
  cell ← without_percent allow_percent (trim t)
  let negative_parentheses = in_parentheses cell
  let inner = if negative_parentheses then drop_last (drop_first cell) else cell
  let value = select is_kept inner
  raise_if (is_nil value || not (all is_number_char value)) not_a_decimal
  let unsigned = trim_start is_sign value
  raise_if (is_nil unsigned || not (any is_digit unsigned)) no_digits
  normalized ← normalize_decimal_separators unsigned
  ok (if starts b'-' value || negative_parentheses then b'-' ∷ normalized else normalized)

pub record Decimals {ℓ} (D : Type ℓ) : Type ℓ where
  pub from_str_exact : Text → Option D
  pub is_negative : D → Bool

unfoldable pub parse_locale_decimal {ℓ} :
    {D : Type ℓ} → Decimals D → Text → Bool → Result ImportError D
unfolding signed_text
parse_locale_decimal decimals t allow_percent = do
  signed ← signed_text t allow_percent
  decimal ← or_raise (decimals.from_str_exact signed) not_exact
  raise_if (decimals.is_negative decimal) negative
  ok decimal
