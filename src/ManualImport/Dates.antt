-- ===== src/ManualImport/Dates.antt =====
-- Dates of an uploaded report. The parser of chrono is a parameter: a text and a format give a date
-- or nothing.
use essentials_merchant.Base.{
  ◌≡◌, sym, ◌∙◌, ◌⊎◌, inl, inr, arith, Bool, true, false, Option, none, some, if◌then◌else◌, any,
  Result, ok, err, ok_injective, some_injective, Bool-cases,
}
use essentials_merchant.ManualImport.{Text, is_char}

pub data DateFormat : Type 0 where
  year_month_day day_month_year_dots : DateFormat
  day_month_year_slashes month_day_year_slashes : DateFormat
  day_month_year_dashes month_day_year_dashes : DateFormat

pub data DateError : Type 0 where
  ambiguous_date unsupported_date : DateError

pub record NaiveDate {ℓ} (D : Type ℓ) : Type ℓ where
  pub parse_from_str : Text → DateFormat → Option D
  -- `!=`
  pub differ : D → D → Bool

module _ {ℓ} {D : Type ℓ} (chrono : NaiveDate D) where
  -- The two readings of a text whose day and month could be swapped.
  abbrev pub agreed : Option D → Option D → Result DateError D
  agreed none none = err unsupported_date
  agreed none (some right) = ok right
  agreed (some left) none = ok left
  agreed (some left) (some right) = if chrono.differ left right then err ambiguous_date else ok left

  abbrev pub in_either_order : Text → DateFormat → DateFormat → Result DateError D
  in_either_order value first second =
      agreed (chrono.parse_from_str value first) (chrono.parse_from_str value second)

  abbrev pub parse_numeric_date : Text → Result DateError D
  parse_numeric_date value =
      if any (is_char b'/') value
      then in_either_order value day_month_year_slashes month_day_year_slashes
      else if any (is_char b'-') value
      then in_either_order value day_month_year_dashes month_day_year_dashes
      else err unsupported_date

  -- The first reading that succeeds, else the rest.
  abbrev pub or_date : Option D → Result DateError D → Result DateError D
  or_date (some date) rest = ok date
  or_date none rest = rest

  unfoldable pub parse_flat_date : Text → Result DateError D
  parse_flat_date value =
      or_date (chrono.parse_from_str value year_month_day)
        (or_date (chrono.parse_from_str value day_month_year_dots) (parse_numeric_date value))

  -- The text reads as the date in the one order or in the other.
  abbrev pub EitherOrder : DateFormat → DateFormat → Text → D → Type ℓ
  EitherOrder first second value date =
      (chrono.parse_from_str value first ≡ some date)
      ⊎ (chrono.parse_from_str value second ≡ some date)

  agreed-same :
      (l r date : D) → chrono.differ l r ≡ false → agreed (some l) (some r) ≡ ok date → l ≡ date
  agreed-same l r date same e = ok_injective {E = DateError} (ground (arith, same, e))

  agreed_unique :
      (equal : (a b : D) → chrono.differ a b ≡ false → a ≡ b) (left right : Option D)
      (date other : D)
      → agreed left right ≡ ok date
      → (left ≡ some other) ⊎ (right ≡ some other)
      → other ≡ date
  agreed_unique equal none none date other e h = absurd (ground (arith, e))
  agreed_unique equal none (some r) date other e (inl h) = absurd (ground (arith, h))
  agreed_unique equal none (some r) date other e (inr h) =
      sym (some_injective h) ∙ ok_injective {E = DateError} e
  agreed_unique equal (some l) none date other e (inl h) =
      sym (some_injective h) ∙ ok_injective {E = DateError} e
  agreed_unique equal (some l) none date other e (inr h) = absurd (ground (arith, h))
  agreed_unique equal (some l) (some r) date other e h = elim (Bool-cases (chrono.differ l r)) [
    | inl apart ↦ absurd (ground (arith, apart, e))
    | inr same ↦
        let left = agreed-same l r date same e in
        elim h [
          | inl h ↦ sym (some_injective h) ∙ left
          | inr h ↦ sym (some_injective h) ∙ sym (equal l r same) ∙ left
        ]
  ]

  -- A text with a slash that neither the ISO form nor the form with dots fits: when it is read as a
  -- date, every date that it can be read as with the day first or with the month first is that one.
  -- Dates that do not differ for the code are equal.
  pub parse_flat_date_unique :
      ((a b : D) → chrono.differ a b ≡ false → a ≡ b)
      → (value : Text) (date other : D) → chrono.parse_from_str value year_month_day ≡ none
      → chrono.parse_from_str value day_month_year_dots ≡ none
      → any (is_char b'/') value ≡ true
      → parse_flat_date value ≡ ok date
      → EitherOrder day_month_year_slashes month_day_year_slashes value other
      → other ≡ date
  unfolding parse_flat_date
  parse_flat_date_unique equal value date other iso dotted slashes e h =
      agreed_unique equal (chrono.parse_from_str value day_month_year_slashes)
        (chrono.parse_from_str value month_day_year_slashes) date other
        (ground (arith, iso, dotted, slashes, e)) h
