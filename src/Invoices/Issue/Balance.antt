-- ===== src/Invoices/Issue/Balance.antt =====
-- What a status change does to the amounts of invoices and lines, and when it is permitted.
use essentials_merchant.Base.{
  ℕ, ◌≡◌, sym, ap, ◌∙◌, subst, inl, inr, Bool, true, some, List, [], ◌∷◌, arith, ◌==◌, Result, ok,
  err, find?, update_where, All-update_where, Bool-cases, Option-cases, >>=-eq-ok, >>-eq-ok,
  ok_injective, leb, i32_max,
}
use essentials_merchant.Domain.Decimal.{Decimals}
use essentials_merchant.Domain.InvoiceStatus.{InvoiceStatus, can_transition_to}
use essentials_merchant.Invoices.{
  Invoice, InvoiceLineItem, Db, Sqlx, StockMovement, has_id, insert_movement,
}
use essentials_merchant.Invoices.LineItems.Totals.{IsExactInvoice, IsBalanced}
use essentials_merchant.Invoices.Issue.{
  Now, transition_status, change_status, send, ship, outgoing, lifted, closed_at, number_text,
  find_customer, sent_invoice,
}

module _ (d : Decimals) (fits : d.Decimal → Bool) where
  -- What booking stock leaves alone.
  Keeps : Db d → Db d → Type 0
  Keeps db db' = (db'.invoices ≡ db.invoices) × (db'.line_items ≡ db.line_items)

  insert_movement-Keeps :
      (db db' : Db d) (m : StockMovement d) → insert_movement d fits db m ≡ ok db' → Keeps db db'
  unfolding insert_movement Keeps
  insert_movement-Keeps db db' m e = ground arith

  ship-Keeps :
      (invoice_id : ℕ) (ls : List (InvoiceLineItem d)) (db db' : Db d)
      → ship d fits invoice_id ls db ≡ ok db'
      → Keeps db db'
  unfolding ship Keeps
  ship-Keeps invoice_id [] db db' e = (
    ap (λ (x : Db d). x.invoices) (sym (ok_injective e)),
    ap (λ (x : Db d). x.line_items) (sym (ok_injective e)),
  )
  ship-Keeps invoice_id (l ∷ ls) db db' e = elim (Bool-cases (l.invoice_id == invoice_id)) [
    | inr other ↦ ship-Keeps invoice_id ls db db' (rw other at e)
    | inl mine ↦ elim (Option-cases (l.article_id)) [
      | inl no_article ↦ ship-Keeps invoice_id ls db db' (rw (mine, no_article) at e)
      | inr (article, linked) ↦
          let (next, booked, rest) =
            >>=-eq-ok (insert_movement d fits db (outgoing d fits invoice_id article l.quantity))
              (ship d fits invoice_id ls) (rw (mine, linked) at e) in
          let (i, k) = insert_movement-Keeps db next _ booked in
          let (i', k') = ship-Keeps invoice_id ls next db' rest in (i' ∙ i, k' ∙ k)
    ]
  ]

  send-IsBalanced :
      (db db' : Db d) (now : Now) (i : Invoice d)
      → IsBalanced d db
      → send d fits db now i ≡ ok db'
      → IsBalanced d db'
  unfolding send Keeps
  send-IsBalanced db db' now i v e =
      let company = db.company in
      let number = number_text company.invoice_number_prefix now.year company.next_invoice_number in
      elim (Bool-cases (leb i32_max company.next_invoice_number)) [
        | inl full ↦ absurd (cc (rw full at e))
        | inr free ↦ elim (Option-cases (find_customer db.customers i.customer_id)) [
          | inl missing ↦ absurd (cc (rw (free, missing) at e))
          | inr (customer, known) ↦
              let (_, shipped) = >>-eq-ok _ _ (rw (free, known) at e) in
              let (same, lines) = ship-Keeps i.id db.line_items _ db' shipped in
              record {
                lines = rw lines v.lines;
                invoices = rw same (
                    All-update_where (IsExactInvoice d) (has_id d i.id)
                      (sent_invoice d fits now company number customer) db.invoices (λ j h hit. h)
                      v.invoices);
              }
        ]
      ]

  closed_at-IsExact :
      (now : Now) (target : InvoiceStatus) (i : Invoice d)
      → IsExactInvoice d i
      → IsExactInvoice d (closed_at d fits now target i)
  closed_at-IsExact now InvoiceStatus.draft i h = h
  closed_at-IsExact now InvoiceStatus.sent i h = h
  closed_at-IsExact now InvoiceStatus.overdue i h = h
  closed_at-IsExact now InvoiceStatus.paid i h = h
  closed_at-IsExact now InvoiceStatus.cancelled i h = h

  closed-IsBalanced :
      (db : Db d) (now : Now) (id : ℕ) (target : InvoiceStatus)
      → IsBalanced d db
      → IsBalanced d (record db {
        invoices = update_where (has_id d id) (closed_at d fits now target) db.invoices;
      })
  closed-IsBalanced db now id target v = record {
    lines = v.lines;
    invoices =
        All-update_where (IsExactInvoice d) (has_id d id) (closed_at d fits now target) db.invoices
          (λ j h hit. closed_at-IsExact now target j h) v.invoices;
  }

  pub change_status-IsBalanced :
      (db db' : Db d) (now : Now) (i : Invoice d) (target : InvoiceStatus)
      → IsBalanced d db
      → change_status d fits db now i target ≡ ok db'
      → IsBalanced d db'
  unfolding change_status
  change_status-IsBalanced db db' now i InvoiceStatus.sent v e = send-IsBalanced db db' now i v e
  change_status-IsBalanced db db' now i InvoiceStatus.draft v e =
      subst (IsBalanced d) (ok_injective e) (closed-IsBalanced db now i.id InvoiceStatus.draft v)
  change_status-IsBalanced db db' now i InvoiceStatus.overdue v e =
      subst (IsBalanced d) (ok_injective e) (closed-IsBalanced db now i.id InvoiceStatus.overdue v)
  change_status-IsBalanced db db' now i InvoiceStatus.paid v e =
      subst (IsBalanced d) (ok_injective e) (closed-IsBalanced db now i.id InvoiceStatus.paid v)
  change_status-IsBalanced db db' now i InvoiceStatus.cancelled v e =
      subst (IsBalanced d) (ok_injective e)
        (closed-IsBalanced db now i.id InvoiceStatus.cancelled v)

  lifted-eq-ok : (r : Result Sqlx (Db d)) (db' : Db d) → lifted r ≡ ok db' → r ≡ ok db'
  lifted-eq-ok (ok a) db' e = ap (λ (x : Db d). ok x) (ok_injective e)
  lifted-eq-ok (err x) db' e = absurd (cc e)

  -- A status change that succeeds starts from an invoice of that number and is permitted.
  pub transition_status-permitted :
      (db db' : Db d) (now : Now) (id : ℕ) (target : InvoiceStatus)
      → transition_status d fits db now id target ≡ ok db'
      → (i : Invoice d) × (find? (has_id d id) db.invoices ≡ some i)
        × (can_transition_to i.status target ≡ true)
        × (change_status d fits db now i target ≡ ok db')
  unfolding transition_status
  transition_status-permitted db db' now id target e =
      elim (Option-cases (find? (has_id d id) db.invoices)) [
        | inl missing ↦ absurd (cc (rw missing at e))
        | inr (i, found) ↦ elim (Bool-cases (can_transition_to i.status target)) [
          | inl allowed ↦ (i, found, allowed, lifted-eq-ok _ db' (rw (found, allowed) at e))
          | inr forbidden ↦ absurd (cc (rw (found, forbidden) at e))
        ]
      ]
