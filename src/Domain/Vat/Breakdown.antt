-- ===== src/Domain/Vat/Breakdown.antt =====
-- The rows of `vat_breakdown`: one for each rate, with the sums of the line items of that rate.
use essentials_merchant.Base.{
  ◌≡◌, refl, sym, ap, ◌∙◌, inl, inr, Bool, true, false, List, [], ◌∷◌, All, Bool-cases,
}
use essentials_merchant.Domain.Decimal.{Decimals, DecimalLaws}
use essentials_merchant.Domain.Vat.{
  VatBreakdownRow, add_amounts, new_row, add_item, collect, insert_row, sort_rows, vat_breakdown,
  calc_vat,
}

module _ (d : Decimals) where
  open d use {Decimal, zero, add, eq, le}

  abbrev pub add_if : Bool → Decimal → Decimal → Decimal
  add_if true x s = add x s
  add_if false x s = s

  -- The sum of one amount over the rows of a rate.
  abbrev pub row_sum : (VatBreakdownRow d → Decimal) → Decimal → List (VatBreakdownRow d) → Decimal
  row_sum g rate [] = zero
  row_sum g rate (row ∷ rows) = add_if (eq row.rate_percent rate) (g row) (row_sum g rate rows)

  -- The sum of one amount, computed from net amount and rate, over the line items of a rate.
  abbrev pub item_sum : (Decimal → Decimal → Decimal) → Decimal → List (Decimal × Decimal) → Decimal
  item_sum f rate [] = zero
  item_sum f rate ((net, r) ∷ items) = add_if (eq r rate) (f net r) (item_sum f rate items)

  -- A row that stands behind another has a smaller rate.
  abbrev pub IsBelow : VatBreakdownRow d → VatBreakdownRow d → Type 0
  IsBelow row other =
      (le other.rate_percent row.rate_percent ≡ true)
      × (eq other.rate_percent row.rate_percent ≡ false)

  abbrev pub IsDescending : List (VatBreakdownRow d) → Type 0
  IsDescending [] = Unit
  IsDescending (row ∷ rows) = All (IsBelow row) rows × IsDescending rows

  abbrev IsOther : Decimal → VatBreakdownRow d → Type 0
  IsOther rate row = eq row.rate_percent rate ≡ false

  abbrev HasDistinctRates : List (VatBreakdownRow d) → Type 0
  HasDistinctRates [] = Unit
  HasDistinctRates (row ∷ rows) = All (IsOther row.rate_percent) rows × HasDistinctRates rows

  module _ (laws : DecimalLaws d) where
    add_left_comm : (a b c : Decimal) → add a (add b c) ≡ add b (add a c)
    add_left_comm a b c =
        sym (laws.add_assoc a b c) ∙ (ap (λ x. add x c) (laws.add_comm a b) ∙ laws.add_assoc b a c)

    add_if_comm :
        (p q : Bool) (a b c : Decimal) → add_if p a (add_if q b c) ≡ add_if q b (add_if p a c)
    add_if_comm true true a b c = add_left_comm a b c
    add_if_comm true false a b c = refl
    add_if_comm false q a b c = refl

    add_if_merge : (p : Bool) (a x s : Decimal) → add_if p (add a x) s ≡ add_if p x (add_if p a s)
    add_if_merge true a x s = laws.add_assoc a x s ∙ add_left_comm a x s
    add_if_merge false a x s = refl

    add_if_out : (p : Bool) (x i s : Decimal) → add i (add_if p x s) ≡ add (add_if p x i) s
    add_if_out true x i s = add_left_comm i x s ∙ sym (laws.add_assoc x i s)
    add_if_out false x i s = refl

    eq_true : (a b : Decimal) → eq a b ≡ true → a ≡ b
    eq_true a b h = (laws.eq_iff a b).0 h

    eq_sym_false : (a b : Decimal) → eq a b ≡ false → eq b a ≡ false
    eq_sym_false a b h = elim (Bool-cases (eq b a)) [
      | inl same ↦ absurd (cc ((laws.eq_iff a b).1 (sym (eq_true b a same)), h))
      | inr other ↦ other
    ]

    module _ (g : VatBreakdownRow d → Decimal) (rate r net vat gross x : Decimal) where
      row_sum-add_item :
          ((row : VatBreakdownRow d) → g (add_amounts d row net vat gross) ≡ add (g row) x)
          → g (new_row d r net vat gross) ≡ x
          → (rows : List (VatBreakdownRow d))
          → row_sum g rate (add_item d r net vat gross rows)
            ≡ add_if (eq r rate) x (row_sum g rate rows)
      unfolding add_item
      row_sum-add_item grown fresh [] = rw fresh
      row_sum-add_item grown fresh (row ∷ rows) = elim (Bool-cases (eq row.rate_percent r)) [
        | inl hit ↦
            let same = eq_true row.rate_percent r hit in
            let rest = row_sum g rate rows in
            rw (hit, grown row)
              (ap (λ q. add_if (eq q rate) (add (g row) x) rest) same
                ∙ (add_if_merge (eq r rate) (g row) x rest
                    ∙ ap (λ q. add_if (eq r rate) x (add_if (eq q rate) (g row) rest)) (sym same)))
        | inr miss ↦
            rw (miss, row_sum-add_item grown fresh rows)
              (add_if_comm (eq row.rate_percent rate) (eq r rate) (g row) x (row_sum g rate rows))
      ]

    row_sum-insert_row :
        (g : VatBreakdownRow d → Decimal) (rate : Decimal) (row : VatBreakdownRow d)
        (rows : List (VatBreakdownRow d))
        → row_sum g rate (insert_row d row rows) ≡ row_sum g rate (row ∷ rows)
    unfolding insert_row
    row_sum-insert_row g rate row [] = refl
    row_sum-insert_row g rate row (other ∷ rows) =
        elim (Bool-cases (le other.rate_percent row.rate_percent)) [
          | inl before ↦ rw before
          | inr behind ↦
              rw (behind, row_sum-insert_row g rate row rows)
                (add_if_comm (eq other.rate_percent rate) (eq row.rate_percent rate) (g other)
                  (g row) (row_sum g rate rows))
        ]

    row_sum-sort_rows :
        (g : VatBreakdownRow d → Decimal) (rate : Decimal) (rows : List (VatBreakdownRow d))
        → row_sum g rate (sort_rows d rows) ≡ row_sum g rate rows
    unfolding sort_rows
    row_sum-sort_rows g rate [] = refl
    row_sum-sort_rows g rate (row ∷ rows) =
        row_sum-insert_row g rate row (sort_rows d rows)
        ∙ ap (add_if (eq row.rate_percent rate) (g row)) (row_sum-sort_rows g rate rows)

    -- `g` is the amount of a row that grows by `f net rate` with each item.
    abbrev Grows : (VatBreakdownRow d → Decimal) → (Decimal → Decimal → Decimal) → Type 0
    Grows g f =
        (row : VatBreakdownRow d) (net r : Decimal)
        → (g (add_amounts d row net (calc_vat d net r).0 (calc_vat d net r).1)
            ≡ add (g row) (f net r))
          × (g (new_row d r net (calc_vat d net r).0 (calc_vat d net r).1) ≡ f net r)

    row_sum-collect :
        (g : VatBreakdownRow d → Decimal) (f : Decimal → Decimal → Decimal)
        → Grows g f
        → (rate : Decimal) (items : List (Decimal × Decimal)) (rows : List (VatBreakdownRow d))
        → row_sum g rate (collect d rows items) ≡ add (item_sum f rate items) (row_sum g rate rows)
    unfolding collect
    row_sum-collect g f grows rate [] rows = sym (laws.zero-add (row_sum g rate rows))
    row_sum-collect g f grows rate ((net, r) ∷ items) rows =
        row_sum-collect g f grows rate items _
        ∙ (ap (add (item_sum f rate items)) (
              row_sum-add_item g rate r net _ _ (f net r) (λ row. (grows row net r).0)
                (grows (new_row d r net net net) net r).1 rows)
            ∙ add_if_out (eq r rate) (f net r) (item_sum f rate items) (row_sum g rate rows))

    row_sum-vat_breakdown :
        (g : VatBreakdownRow d → Decimal) (f : Decimal → Decimal → Decimal)
        → Grows g f
        → (rate : Decimal) (items : List (Decimal × Decimal))
        → row_sum g rate (vat_breakdown d items) ≡ item_sum f rate items
    unfolding vat_breakdown
    row_sum-vat_breakdown g f grows rate items =
        row_sum-sort_rows g rate (collect d [] items)
        ∙ (row_sum-collect g f grows rate items []
            ∙ (laws.add_comm (item_sum f rate items) zero ∙ laws.zero-add (item_sum f rate items)))

    IsOther-add_item :
        (rate r net vat gross : Decimal) (rows : List (VatBreakdownRow d))
        → eq r rate ≡ false
        → All (IsOther rate) rows
        → All (IsOther rate) (add_item d r net vat gross rows)
    unfolding add_item
    IsOther-add_item rate r net vat gross [] h a = (h, tt)
    IsOther-add_item rate r net vat gross (row ∷ rows) h a =
        elim (Bool-cases (eq row.rate_percent r)) [
          | inl hit ↦ rw hit (a.0, a.1)
          | inr miss ↦ rw miss (a.0, IsOther-add_item rate r net vat gross rows h a.1)
        ]

    HasDistinctRates-add_item :
        (r net vat gross : Decimal) (rows : List (VatBreakdownRow d))
        → HasDistinctRates rows
        → HasDistinctRates (add_item d r net vat gross rows)
    unfolding add_item
    HasDistinctRates-add_item r net vat gross [] h = (tt, tt)
    HasDistinctRates-add_item r net vat gross (row ∷ rows) h =
        elim (Bool-cases (eq row.rate_percent r)) [
          | inl hit ↦ rw hit (h.0, h.1)
          | inr miss ↦ rw miss (
            IsOther-add_item row.rate_percent r net vat gross rows
                (eq_sym_false row.rate_percent r miss) h.0,
            HasDistinctRates-add_item r net vat gross rows h.1,
          )
        ]

    HasDistinctRates-collect :
        (items : List (Decimal × Decimal)) (rows : List (VatBreakdownRow d))
        → HasDistinctRates rows
        → HasDistinctRates (collect d rows items)
    unfolding collect
    HasDistinctRates-collect [] rows h = h
    HasDistinctRates-collect ((net, r) ∷ items) rows h =
        HasDistinctRates-collect items _ (HasDistinctRates-add_item r net _ _ rows h)

    All-insert_row :
        (P : VatBreakdownRow d → Type 0) (row : VatBreakdownRow d) (rows : List (VatBreakdownRow d))
        → P row
        → All P rows
        → All P (insert_row d row rows)
    unfolding insert_row
    All-insert_row P row [] p a = (p, tt)
    All-insert_row P row (other ∷ rows) p a =
        elim (Bool-cases (le other.rate_percent row.rate_percent)) [
          | inl before ↦ rw before (p, a)
          | inr behind ↦ rw behind (a.0, All-insert_row P row rows p a.1)
        ]

    All-sort_rows :
        (P : VatBreakdownRow d → Type 0) (rows : List (VatBreakdownRow d))
        → All P rows
        → All P (sort_rows d rows)
    unfolding sort_rows
    All-sort_rows P [] a = tt
    All-sort_rows P (row ∷ rows) a =
        All-insert_row P row (sort_rows d rows) a.0 (All-sort_rows P rows a.1)

    IsBelow-All :
        (row other : VatBreakdownRow d) (rows : List (VatBreakdownRow d))
        → le other.rate_percent row.rate_percent ≡ true
        → All (IsBelow other) rows
        → All (IsOther row.rate_percent) rows
        → All (IsBelow row) rows
    IsBelow-All row other [] h a b = tt
    IsBelow-All row other (third ∷ rows) h a b = (
      (laws.le_trans third.rate_percent other.rate_percent row.rate_percent a.0.0 h, b.0),
      IsBelow-All row other rows h a.1 b.1,
    )

    insert_row-IsDescending :
        (row : VatBreakdownRow d) (rows : List (VatBreakdownRow d))
        → All (IsOther row.rate_percent) rows
        → IsDescending rows
        → IsDescending (insert_row d row rows)
    unfolding insert_row
    insert_row-IsDescending row [] a h = (tt, tt)
    insert_row-IsDescending row (other ∷ rows) a h =
        elim (Bool-cases (le other.rate_percent row.rate_percent)) [
          | inl before ↦ rw before (((before, a.0), IsBelow-All row other rows before h.0 a.1), h)
          | inr behind ↦ rw behind (
            All-insert_row (IsBelow other) row rows
                (
                  laws.le_total other.rate_percent row.rate_percent behind,
                  eq_sym_false other.rate_percent row.rate_percent a.0,
                )
                h.0,
            insert_row-IsDescending row rows a.1 h.1,
          )
        ]

    sort_rows-IsDescending :
        (rows : List (VatBreakdownRow d)) → HasDistinctRates rows → IsDescending (sort_rows d rows)
    unfolding sort_rows
    sort_rows-IsDescending [] h = tt
    sort_rows-IsDescending (row ∷ rows) h =
        insert_row-IsDescending row (sort_rows d rows)
          (All-sort_rows (IsOther row.rate_percent) rows h.0) (sort_rows-IsDescending rows h.1)

    -- The rows come in strictly descending order of their rates, so a rate has one row at most, and
    -- for every rate the net, VAT and gross totals are the sums over the line items of that rate.
    pub vat_breakdown_groups :
        (items : List (Decimal × Decimal)) (rate : Decimal)
        → IsDescending (vat_breakdown d items)
          × (row_sum (λ row. row.net_total) rate (vat_breakdown d items)
              ≡ item_sum (λ net r. net) rate items)
          × (row_sum (λ row. row.vat_total) rate (vat_breakdown d items)
              ≡ item_sum (λ net r. (calc_vat d net r).0) rate items)
          × (row_sum (λ row. row.gross_total) rate (vat_breakdown d items)
              ≡ item_sum (λ net r. (calc_vat d net r).1) rate items)
    unfolding vat_breakdown
    vat_breakdown_groups items rate = (
      sort_rows-IsDescending (collect d [] items) (HasDistinctRates-collect items [] tt),
      row_sum-vat_breakdown (λ row. row.net_total) _ (λ row net r. (refl, refl)) rate items,
      row_sum-vat_breakdown (λ row. row.vat_total) _ (λ row net r. (refl, refl)) rate items,
      row_sum-vat_breakdown (λ row. row.gross_total) _ (λ row net r. (refl, refl)) rate items,
    )
