-- ===== src/ManualImport/Tests.antt =====
-- Numbers and currencies as they are written in uploaded reports.
use essentials_merchant.Base.{◌≡◌, refl, true, false, none, some, [], ◌∷◌, ◌++◌, ok, err, All}
use essentials_merchant.ManualImport.{
  Text, ambiguous, invalid_grouping, unexpected_percent, no_digits, concat,
  normalize_decimal_separators,
}
use essentials_merchant.ManualImport.Grouping.{join}
use essentials_merchant.ManualImport.Notation.{normalize-grouped, normalize-ambiguous}
use essentials_merchant.ManualImport.Locale.{signed_text}
use essentials_merchant.ManualImport.Currency.{
  currency_conflict, reconcile_currencies, reconcile_currencies-Names, Names, normalize_currency,
}

abbrev one : Text
one = b'1' ∷ []

abbrev five : Text
five = b'5' ∷ []

abbrev group_050 : Text
group_050 = b'0' ∷ b'5' ∷ b'0' ∷ []

abbrev eur : Text
eur = b'E' ∷ b'U' ∷ b'R' ∷ []

abbrev eur_written : Text
eur_written = b' ' ∷ b'e' ∷ b'U' ∷ b'r' ∷ []

abbrev usd : Text
usd = b'U' ∷ b'S' ∷ b'D' ∷ []

-- Of several signs only the first one counts.
several_signs : signed_text (b'+' ∷ b'-' ∷ five) false ≡ ok five
unfolding signed_text normalize_decimal_separators
several_signs = refl

parentheses : signed_text (b'(' ∷ b'5' ∷ b' ' ∷ b')' ∷ []) false ≡ ok (b'-' ∷ five)
unfolding signed_text normalize_decimal_separators
parentheses = refl

percent : signed_text (b'5' ∷ b' ' ∷ b'%' ∷ []) true ≡ ok five
unfolding signed_text normalize_decimal_separators
percent = refl

percent_refused : signed_text (b'5' ∷ b'%' ∷ []) false ≡ err unexpected_percent
unfolding signed_text
percent_refused = refl

sign_alone : signed_text (b'-' ∷ []) false ≡ err no_digits
unfolding signed_text
sign_alone = refl

millions :
    normalize_decimal_separators (join b',' (one ∷ group_050 ∷ group_050 ∷ []))
    ≡ ok (one ++ group_050 ++ group_050)
unfolding normalize_decimal_separators
millions = refl

small_fraction :
    normalize_decimal_separators (b'0' ∷ b',' ∷ group_050) ≡ ok (b'0' ∷ b'.' ∷ group_050)
unfolding normalize_decimal_separators
small_fraction = refl

uneven_groups :
    normalize_decimal_separators (one ++ b',' ∷ five ++ b',' ∷ group_050) ≡ err invalid_grouping
unfolding normalize_decimal_separators
uneven_groups = refl

conflict :
    reconcile_currencies (some eur_written ∷ none ∷ some usd ∷ []) ≡ err (currency_conflict eur usd)
unfolding reconcile_currencies normalize_currency
conflict = refl

normalize-grouped_example :
    (normalize_decimal_separators (join b',' (one ∷ group_050 ∷ []) ++ b'.' ∷ five)
      ≡ ok (concat (one ∷ group_050 ∷ []) ++ b'.' ∷ five))
    × (normalize_decimal_separators (join b'.' (one ∷ group_050 ∷ []) ++ b',' ∷ five)
        ≡ ok (concat (one ∷ group_050 ∷ []) ++ b'.' ∷ five))
normalize-grouped_example = normalize-grouped one group_050 [] five refl refl

normalize-ambiguous_example :
    (normalize_decimal_separators (one ++ b',' ∷ group_050) ≡ err ambiguous)
    × (normalize_decimal_separators (one ++ b'.' ∷ group_050) ≡ err ambiguous)
normalize-ambiguous_example = normalize-ambiguous one group_050 refl refl refl

reconcile_currencies-Names_example :
    All (Names (some eur)) (some eur_written ∷ none ∷ some eur ∷ [])
unfolding reconcile_currencies normalize_currency
reconcile_currencies-Names_example =
    reconcile_currencies-Names (some eur_written ∷ none ∷ some eur ∷ []) (some eur) refl
