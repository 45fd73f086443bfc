-- ===== src/ManualImport.antt =====
-- The reading of numbers in an uploaded report, backend/crates/server/src/manual_import.rs. A text
-- is the list of its characters' code points; the separators and digits are all of one byte.
pub mod Grouping
pub mod Notation
pub mod Locale
pub mod Currency
pub mod Dates
pub mod Cells
mod Tests
use essentials_merchant.Base.{
  ℕ, zero, suc, ◌+◌, ◌-◌, ◌*◌, Bool, true, false, not, ◌&&◌, ◌||◌, Option, none, some, List, [],
  ◌∷◌, ◌++◌, if◌then◌else◌, ◌==◌, leb, ltb, all, any, count_where, length, select, Result, ok, err,
  ◌>>=◌,
}

abbrev pub Text : Type 0
Text = List ℕ

pub data ImportError : Type 0 where
  unexpected_percent not_a_decimal no_digits only_digits : ImportError
  invalid_grouping ambiguous not_exact negative : ImportError

abbrev pub is_digit : ℕ → Bool
is_digit c = leb 48 c && leb c 57

abbrev pub is_char : ℕ → ℕ → Bool
is_char c d = d == c

-- `value.matches(c).count()`
abbrev pub count : ℕ → Text → ℕ
count c t = count_where (is_char c) t

abbrev pub put_first : ℕ → List Text → List Text
put_first c [] = (c ∷ []) ∷ []
put_first c (t ∷ ts) = (c ∷ t) ∷ ts

-- `value.split(c)`
abbrev pub split : ℕ → Text → List Text
split c [] = [] ∷ []
split c (d ∷ ds) = let rest = split c ds in if d == c then [] ∷ rest else put_first d rest

abbrev pub concat : List Text → Text
concat [] = []
concat (t ∷ ts) = t ++ concat ts

-- `value.split_once(c)`, for a text that has the character; the second part is empty otherwise.
abbrev pub split_once : ℕ → Text → Text × Text
split_once c [] = ([], [])
split_once c (d ∷ ds) =
    let rest = split_once c ds in if d == c then ([], ds) else (d ∷ rest.0, rest.1)

-- `value.rfind(a) > value.rfind(b)`, for a text that has both: `a` stands behind every `b`.
abbrev pub is_behind : ℕ → ℕ → Text → Bool
is_behind a b [] = false
is_behind a b (d ∷ ds) =
    let rest = is_behind a b ds in
    if any (is_char b) ds then rest else if any (is_char a) ds then true else d == a

abbrev pub is_nil : Text → Bool
is_nil [] = true
is_nil (c ∷ cs) = false

abbrev pub is_first_group : Text → Bool
is_first_group g = not (is_nil g) && leb (length g) 3 && all is_digit g

abbrev pub is_group : Text → Bool
is_group g = length g == 3 && all is_digit g

abbrev pub are_groups : List Text → Bool
are_groups [] = false
are_groups (g ∷ gs) = is_first_group g && all is_group gs

unfoldable pub validate_grouped_integer : Text → ℕ → Bool
validate_grouped_integer value grouping = are_groups (split grouping value)

abbrev pub is_fraction : Text → Bool
is_fraction f = not (is_nil f) && all is_digit f

-- Both separators occur: the last one to occur is the decimal one.
unfoldable pub with_both : ℕ → ℕ → Text → Result ImportError Text
with_both decimal grouping value =
    let (integer, fraction) = split_once decimal value in
    if not (count decimal value == 1)
    then err invalid_grouping
    else if not (validate_grouped_integer integer grouping)
    then err invalid_grouping
    else if not (is_fraction fraction)
    then err invalid_grouping
    else ok (select (λ c. not (c == grouping)) integer ++ b'.' ∷ fraction)

-- More than one of the one separator: thousands.
unfoldable pub with_groups : ℕ → Text → Result ImportError Text
with_groups separator value =
    let groups = split separator value in
    if are_groups groups then ok (concat groups) else err invalid_grouping

abbrev pub is_zero : Text → Bool
is_zero (c ∷ []) = c == b'0'
is_zero _ = false

abbrev pub is_ambiguous : Text → Text → Bool
is_ambiguous integer fraction =
    length fraction == 3 && leb (length integer) 3 && not (is_zero integer)

-- One separator: the decimal one, unless it could as well group thousands.
unfoldable pub with_one : ℕ → Text → Result ImportError Text
with_one separator value =
    let (integer, fraction) = split_once separator value in
    if not (is_fraction integer && is_fraction fraction)
    then err invalid_grouping
    else if is_ambiguous integer fraction
    then err ambiguous
    else ok (integer ++ b'.' ∷ fraction)

abbrev pub with_single : ℕ → ℕ → Text → Result ImportError Text
with_single separator zero value = if all is_digit value then ok value else err only_digits
with_single separator (suc zero) value = with_one separator value
with_single separator (suc (suc n)) value = with_groups separator value

unfoldable pub normalize_decimal_separators : Text → Result ImportError Text
unfolding with_both with_groups with_one
normalize_decimal_separators value =
    let commas = count b',' value in
    let dots = count b'.' value in
    if ltb 0 commas && ltb 0 dots
    then if is_behind b',' b'.' value then with_both b',' b'.' value else with_both b'.' b',' value
    else if ltb 0 commas
    then with_single b',' commas value
    else with_single b'.' dots value
