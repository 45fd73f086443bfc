-- ===== src/Invoices/LineItems/Totals.antt =====
-- The amounts of lines and invoices add up.
use essentials_merchant.Base.{
  ℕ, ◌+◌, ◌≡◌, sym, ap, ◌∙◌, inl, inr, Bool, Option, some, List, [], ◌∷◌, ok, find?, any, select,
  update_where, delete_where, ok_injective, All, All-update_where, subst, Bool-cases, Option-cases,
  >>=-eq-ok, >>-eq-ok,
}
use essentials_merchant.Domain.Decimal.{Decimals, DecimalLaws}
use essentials_merchant.Domain.Vat.{round_money, calc_vat_exact}
use essentials_merchant.Invoices.{Invoice, InvoiceLineItem, Db, has_id}
use essentials_merchant.Invoices.LineItems.{
  LineItemInput, of_invoice, is_line, sum_of, lines_of, with_totals, recompute_totals, priced,
  rate_of, max_position, add_line_item, update_line_item, delete_line_item,
}

pub delete_where-All {ℓ} :
    {A : Type ℓ} (P : A → Type 0) (p : A → Bool) (xs : List A)
    → All P xs
    → All P (delete_where p xs)
delete_where-All P p [] h = tt
delete_where-All P p (x ∷ xs) h = elim (Bool-cases (p x)) [
  | inl hit ↦ rw hit (delete_where-All P p xs h.1)
  | inr miss ↦ rw miss (h.0, delete_where-All P p xs h.1)
]

module _ (d : Decimals) where
  open d use {Decimal, zero, add, mul}

  -- A gross amount is the exact sum of net amount and VAT.
  abbrev pub IsExactLine : InvoiceLineItem d → Type 0
  IsExactLine l = l.gross_amount ≡ add l.net_amount l.vat_amount

  abbrev pub IsExactInvoice : Invoice d → Type 0
  IsExactInvoice i = i.gross_total ≡ add i.net_total i.vat_total

  pub record IsBalanced (db : Db d) : Type 0 where
    pub lines : All IsExactLine db.line_items
    pub invoices : All IsExactInvoice db.invoices

  module _ (laws : DecimalLaws d) where
    add_swap : (a b c e : Decimal) → add (add a b) (add c e) ≡ add (add a c) (add b e)
    add_swap a b c e =
        laws.add_assoc a b (add c e)
        ∙ (ap (add a) (
              sym (laws.add_assoc b c e)
              ∙ (ap (λ x. add x e) (laws.add_comm b c) ∙ laws.add_assoc c b e))
            ∙ sym (laws.add_assoc a c (add b e)))

    pub sum_of-IsExact :
        (ls : List (InvoiceLineItem d))
        → All IsExactLine ls
        → sum_of d (λ l. l.gross_amount) ls
          ≡ add (sum_of d (λ l. l.net_amount) ls) (sum_of d (λ l. l.vat_amount) ls)
    sum_of-IsExact [] h = sym (laws.zero-add zero)
    sum_of-IsExact (l ∷ ls) h =
        ap (λ x. add x (sum_of d (λ k. k.gross_amount) ls)) h.0
        ∙ (ap (add (add l.net_amount l.vat_amount)) (sum_of-IsExact ls h.1)
            ∙ add_swap l.net_amount l.vat_amount (sum_of d (λ k. k.net_amount) ls)
                (sum_of d (λ k. k.vat_amount) ls))

    select-All :
        (P : InvoiceLineItem d → Type 0) (p : InvoiceLineItem d → Bool)
        (ls : List (InvoiceLineItem d))
        → All P ls
        → All P (select p ls)
    select-All P p [] h = tt
    select-All P p (l ∷ ls) h = elim (Bool-cases (p l)) [
      | inl hit ↦ rw hit (h.0, select-All P p ls h.1)
      | inr miss ↦ rw miss (select-All P p ls h.1)
    ]

    priced-IsExactLine :
        (id invoice_id position : ℕ) (input : LineItemInput d) (rate : Decimal)
        → IsExactLine (priced d id invoice_id position input rate)
    unfolding priced round_money
    priced-IsExactLine id invoice_id position input rate =
        (calc_vat_exact d laws (round_money d (mul input.quantity input.unit_price_net)) rate
          (laws.round_idem (mul input.quantity input.unit_price_net))).0

    module _ (fits : Decimal → Bool) where
      recompute_totals-IsBalanced :
          (db db' : Db d) (id : ℕ)
          → recompute_totals d fits db id ≡ ok db'
          → All IsExactLine db.line_items
          → All IsExactInvoice db.invoices
          → IsBalanced db'
      unfolding recompute_totals
      recompute_totals-IsBalanced db db' id e lines invoices =
          let (_, done) = >>-eq-ok _ _ e in
          let next : IsBalanced _ = record {
            lines = lines;
            invoices =
                All-update_where IsExactInvoice (has_id d id)
                  (with_totals d (lines_of d db.line_items id)) db.invoices
                  (λ i h hit.
                    sum_of-IsExact (lines_of d db.line_items id)
                      (select-All IsExactLine (of_invoice d id) db.line_items lines))
                  invoices;
          } in
          subst IsBalanced (ok_injective done) next

      pub add_line_item-IsBalanced :
          (db db' : Db d) (fresh invoice_id : ℕ) (input : LineItemInput d) (l : InvoiceLineItem d)
          → IsBalanced db
          → add_line_item d fits db fresh invoice_id input ≡ ok (l, db')
          → IsBalanced db'
      unfolding add_line_item
      add_line_item-IsBalanced db db' fresh invoice_id input l v e =
          elim (Option-cases (rate_of d db.vat_rates input.vat_rate_code)) [
            | inl missing ↦ absurd (cc (rw missing at e))
            | inr (rate, known) ↦
                let line =
                  priced d fresh invoice_id
                    (max_position d (lines_of d db.line_items invoice_id) + 1) input rate in
                let (_, written) = >>-eq-ok _ _ (rw known at e) in
                let (next, computed, done) =
                  >>=-eq-ok
                    (recompute_totals d fits (record db { line_items = line ∷ db.line_items })
                      invoice_id)
                    (λ (n : Db d). ok (line, n)) written in
                subst IsBalanced (ap (λ (r : InvoiceLineItem d × Db d). r.1) (ok_injective done)) (
                  recompute_totals-IsBalanced (record db { line_items = line ∷ db.line_items }) next
                    invoice_id computed (priced-IsExactLine fresh invoice_id _ input rate, v.lines)
                    v.invoices)
          ]

      pub delete_line_item-IsBalanced :
          (db db' : Db d) (invoice_id id : ℕ) (deleted : Bool)
          → IsBalanced db
          → delete_line_item d fits db invoice_id id ≡ ok (deleted, db')
          → IsBalanced db'
      unfolding delete_line_item
      delete_line_item-IsBalanced db db' invoice_id id deleted v e =
          elim (Bool-cases (any (is_line d invoice_id id) db.line_items)) [
            | inl there ↦
                let (_, written) = >>-eq-ok _ _ (rw there at e) in
                let (next, computed, done) =
                  >>=-eq-ok (recompute_totals d fits _ invoice_id) _ written in
                subst IsBalanced (ap (λ r. r.1) (ok_injective done)) (
                  recompute_totals-IsBalanced _ next invoice_id computed
                    (delete_where-All IsExactLine (is_line d invoice_id id) db.line_items v.lines)
                    v.invoices)
            | inr missing ↦ subst IsBalanced (ap (λ r. r.1) (ok_injective (rw missing at e))) v
          ]

      pub update_line_item-IsBalanced :
          (db db' : Db d) (invoice_id id : ℕ) (input : LineItemInput d)
          (found : Option (InvoiceLineItem d))
          → IsBalanced db
          → update_line_item d fits db invoice_id id input ≡ ok (found, db')
          → IsBalanced db'
      unfolding update_line_item
      update_line_item-IsBalanced db db' invoice_id id input found v e =
          elim (Option-cases (rate_of d db.vat_rates input.vat_rate_code)) [
            | inl missing ↦ absurd (cc (rw missing at e))
            | inr (rate, known) ↦
                elim (Option-cases (find? (is_line d invoice_id id) db.line_items)) [
                  | inl missing ↦
                      subst IsBalanced
                        (ap (λ (r : Option (InvoiceLineItem d) × Db d). r.1)
                          (ok_injective (rw (known, missing) at e)))
                        v
                  | inr (old, there) ↦
                      let (_, written) = >>-eq-ok _ _ (rw (known, there) at e) in
                      let line = priced d id invoice_id old.position input rate in
                      let base : Db d = record db {
                        line_items =
                            update_where (is_line d invoice_id id) (λ _. line) db.line_items;
                      } in
                      let (next, computed, done) =
                        >>=-eq-ok (recompute_totals d fits base invoice_id)
                          (λ (n : Db d). ok (some line, n)) written in
                      subst IsBalanced
                        (ap (λ (r : Option (InvoiceLineItem d) × Db d). r.1) (ok_injective done))
                        (recompute_totals-IsBalanced base next invoice_id computed
                          (All-update_where IsExactLine (is_line d invoice_id id) (λ _. line)
                            db.line_items
                            (λ k h hit. priced-IsExactLine id invoice_id old.position input rate)
                            v.lines)
                          v.invoices)
                ]
          ]
