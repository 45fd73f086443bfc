-- ===== src/ManualImport/Notation.antt =====
-- Thousands and decimals: the English and the German notation of a number are read alike.
use essentials_merchant.Base.{
  ℕ, ◌≡◌, refl, arith, true, false, not, ◌&&◌, List, [], ◌∷◌, ◌++◌, if◌then◌else◌, ◌==◌, ltb, all,
  All, ok, err,
}
use essentials_merchant.ManualImport.{
  Text, ambiguous, invalid_grouping, is_digit, count, concat, is_group, is_first_group, are_groups,
  is_fraction, is_zero, is_ambiguous, validate_grouped_integer, with_both, with_one,
  normalize_decimal_separators,
}
use essentials_merchant.ManualImport.Grouping.{
  join, Lacks, digits-Lacks, count-Lacks, count-append, split_once-append, split-join, join-Lacks,
  without-join, is_behind-last, is_behind-before,
}

groups-Lacks :
    (c : ℕ) (gs : List Text) → is_digit c ≡ false → all is_group gs ≡ true → All (Lacks c) gs
groups-Lacks c [] other h = tt
groups-Lacks c (g ∷ gs) other h =
    (digits-Lacks c g other (ground (arith, h)), groups-Lacks c gs other (ground (arith, h)))

are_groups-Lacks :
    (c : ℕ) (gs : List Text) → is_digit c ≡ false → are_groups gs ≡ true → All (Lacks c) gs
are_groups-Lacks c [] other h = tt
are_groups-Lacks c (g ∷ gs) other h =
    (digits-Lacks c g other (ground (arith, h)), groups-Lacks c gs other (ground (arith, h)))

module _ (d c : ℕ) (g u : Text) (gs : List Text) (f : Text) (apart : (c == d) ≡ false)
    (point : is_digit d ≡ false) (comma : is_digit c ≡ false)
    (grouped : are_groups (g ∷ u ∷ gs) ≡ true) (fraction : is_fraction f ≡ true) where
  abbrev written : Text
  written = join c (g ∷ u ∷ gs) ++ d ∷ f

  no_point : Lacks d (join c (g ∷ u ∷ gs))
  no_point = join-Lacks d c (g ∷ u ∷ gs) apart (are_groups-Lacks d (g ∷ u ∷ gs) point grouped)

  no_point_after : Lacks d f
  no_point_after = digits-Lacks d f point (ground (arith, fraction))

  no_comma_after : Lacks c f
  no_comma_after = digits-Lacks c f comma (ground (arith, fraction))

  one_point : count d written ≡ 1
  one_point = ground (
    arith,
    count-append d (join c (g ∷ u ∷ gs)) (d ∷ f),
    count-Lacks d (join c (g ∷ u ∷ gs)) no_point,
    count-Lacks d f no_point_after,
  )

  with_both-grouped : with_both d c written ≡ ok (concat (g ∷ u ∷ gs) ++ b'.' ∷ f)
  unfolding with_both validate_grouped_integer
  with_both-grouped =
      rw
        (
          with_both,
          split_once-append d (join c (g ∷ u ∷ gs)) f no_point,
          one_point,
          split-join c g (u ∷ gs) (are_groups-Lacks c (g ∷ u ∷ gs) comma grouped),
          grouped,
          fraction,
          without-join c (g ∷ u ∷ gs) (are_groups-Lacks c (g ∷ u ∷ gs) comma grouped),
        )
        refl

  some_commas : ltb 0 (count c written) ≡ true
  some_commas =
      ground (
        arith,
        count-append c (join c (g ∷ u ∷ gs)) (d ∷ f),
        count-append c g (c ∷ join c (u ∷ gs)),
      )

  some_point : ltb 0 (count d written) ≡ true
  some_point = ground (arith, one_point)

-- A number in groups of thousands with a fraction is read as its digits and a point, in the English
-- notation (1,234.5) and in the German one (1.234,5) alike.
pub normalize-grouped :
    (g u : Text) (gs : List Text) (f : Text)
    → are_groups (g ∷ u ∷ gs) ≡ true
    → is_fraction f ≡ true
    → (normalize_decimal_separators (join b',' (g ∷ u ∷ gs) ++ b'.' ∷ f)
        ≡ ok (concat (g ∷ u ∷ gs) ++ b'.' ∷ f))
      × (normalize_decimal_separators (join b'.' (g ∷ u ∷ gs) ++ b',' ∷ f)
          ≡ ok (concat (g ∷ u ∷ gs) ++ b'.' ∷ f))
unfolding normalize_decimal_separators
normalize-grouped g u gs f grouped fraction =
    let after =
      λ (c : ℕ) (other : is_digit c ≡ false). digits-Lacks c f other (ground (arith, fraction)) in
    (
      rw
          (
            normalize_decimal_separators,
            some_commas b'.' b',' g u gs f refl refl refl grouped fraction,
            some_point b'.' b',' g u gs f refl refl refl grouped fraction,
            is_behind-before b',' b'.' (join b',' (g ∷ u ∷ gs)) f refl (after b',' refl)
                (after b'.' refl),
          )
          (with_both-grouped b'.' b',' g u gs f refl refl refl grouped fraction),
      rw
          (
            normalize_decimal_separators,
            some_commas b',' b'.' g u gs f refl refl refl grouped fraction,
            some_point b',' b'.' g u gs f refl refl refl grouped fraction,
            is_behind-last b',' b'.' (join b'.' (g ∷ u ∷ gs)) f (after b',' refl) (after b'.' refl),
          )
          (with_both-grouped b',' b'.' g u gs f refl refl refl grouped fraction),
    )

module _ (i f : Text) (whole : is_first_group i ≡ true) (group : is_group f ≡ true) where
  one_separator : (c : ℕ) → is_digit c ≡ false → count c (i ++ c ∷ f) ≡ 1
  one_separator c other = ground (
    arith,
    count-append c i (c ∷ f),
    whole,
    group,
    count-Lacks c i (digits-Lacks c i other (ground (arith, whole))),
    count-Lacks c f (digits-Lacks c f other (ground (arith, group))),
  )

  no_other : (c d : ℕ) → is_digit d ≡ false → (c == d) ≡ false → count d (i ++ c ∷ f) ≡ 0
  no_other c d other apart = ground (
    arith,
    count-append d i (c ∷ f),
    apart,
    count-Lacks d i (digits-Lacks d i other (ground (arith, whole))),
    count-Lacks d f (digits-Lacks d f other (ground (arith, group))),
  )

  with_one-ambiguous :
      (c : ℕ) → is_digit c ≡ false → is_zero i ≡ false → with_one c (i ++ c ∷ f) ≡ err ambiguous
  unfolding with_one
  with_one-ambiguous c other nonzero =
      rw (with_one, split_once-append c i f (digits-Lacks c i other (ground (arith, whole))))
        (both i f whole group nonzero)
    where
      both :
          (i f : Text)
          → is_first_group i ≡ true
          → is_group f ≡ true
          → is_zero i ≡ false
          → (if not (is_fraction i && is_fraction f)
              then err invalid_grouping
              else if is_ambiguous i f
              then err ambiguous
              else ok (i ++ b'.' ∷ f))
            ≡ err ambiguous
      both [] f whole group nonzero = cc
      both (d ∷ ds) [] whole group nonzero = ground (arith, group)
      both (d ∷ ds) (e ∷ es) whole group nonzero = ground (arith, whole, group, nonzero)

-- What could be a decimal as well as thousands is refused in both notations: one to three digits that
-- are not a single 0, one separator and three more digits, such as 1,234 or 1.234.
pub normalize-ambiguous :
    (i f : Text)
    → is_first_group i ≡ true
    → is_group f ≡ true
    → is_zero i ≡ false
    → (normalize_decimal_separators (i ++ b',' ∷ f) ≡ err ambiguous)
      × (normalize_decimal_separators (i ++ b'.' ∷ f) ≡ err ambiguous)
unfolding normalize_decimal_separators with_one
normalize-ambiguous i f whole group nonzero = (
  rw
      (
        normalize_decimal_separators,
        one_separator i f whole group b',' refl,
        no_other i f whole group b',' b'.' refl refl,
      )
      (with_one-ambiguous i f whole group b',' refl nonzero),
  rw
      (
        normalize_decimal_separators,
        one_separator i f whole group b'.' refl,
        no_other i f whole group b'.' b',' refl refl,
      )
      (with_one-ambiguous i f whole group b'.' refl nonzero),
)
