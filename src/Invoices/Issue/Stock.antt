-- ===== src/Invoices/Issue/Stock.antt =====
-- The stock movements that a status change books.
use essentials_merchant.Base.{
  ℕ, ◌+◌, ◌≡◌, sym, ap, ◌∙◌, inl, inr, Bool, true, false, ◌&&◌, none, some, List, [], ◌∷◌, arith,
  if◌then◌else◌, ◌==◌, ok, find?, count_where, Bool-cases, Option-cases, >>=-eq-ok, >>-eq-ok,
  ok_injective, leb, i32_max,
}
use essentials_merchant.Domain.Decimal.{Decimals}
use essentials_merchant.Domain.InvoiceStatus.{InvoiceStatus, can_transition_to}
use essentials_merchant.Invoices.{
  Invoice, InvoiceLineItem, StockMovement, Db, has_id, insert_movement,
}
use essentials_merchant.Invoices.Issue.{
  Now, transition_status, change_status, send, ship, outgoing, find_customer,
}
use essentials_merchant.Invoices.Issue.Balance.{transition_status-permitted}

abbrev pub is_sent : InvoiceStatus → Bool
is_sent InvoiceStatus.sent = true
is_sent _ = false

module _ (d : Decimals) where
  abbrev pub refers_to : ℕ → StockMovement d → Bool
  refers_to id m = elim (m.reference) [ none ↦ false | some n ↦ n == id ]

  abbrev pub is_stocked : ℕ → InvoiceLineItem d → Bool
  is_stocked id l = l.invoice_id == id && elim (l.article_id) [ none ↦ false | some a ↦ true ]

  -- How many movements name the invoice.
  abbrev pub booked : Db d → ℕ → ℕ
  booked db id = count_where (refers_to id) db.stock_movements

  module _ (fits : d.Decimal → Bool) where
    insert_movement-booked :
        (db db' : Db d) (id article : ℕ) (q : d.Decimal)
        → insert_movement d fits db (outgoing d fits id article q) ≡ ok db'
        → booked db' id ≡ booked db id + 1
    unfolding insert_movement
    insert_movement-booked db db' id article q e = ground arith

    ship-booked :
        (id : ℕ) (ls : List (InvoiceLineItem d)) (db db' : Db d)
        → ship d fits id ls db ≡ ok db'
        → booked db' id ≡ booked db id + count_where (is_stocked id) ls
    unfolding ship
    ship-booked id [] db db' e = sym (ap (λ (x : Db d). booked x id) (ok_injective e)) ∙ omega arith
    ship-booked id (l ∷ ls) db db' e = elim (Bool-cases (l.invoice_id == id)) [
      | inr other ↦ rw other (ship-booked id ls db db' (rw other at e))
      | inl mine ↦ elim (Option-cases (l.article_id)) [
        | inl no_article ↦
            rw (mine, no_article) (ship-booked id ls db db' (rw (mine, no_article) at e))
        | inr (article, linked) ↦
            let (next, first, rest) =
              >>=-eq-ok (insert_movement d fits db (outgoing d fits id article l.quantity))
                (ship d fits id ls) (rw (mine, linked) at e) in
            rw (mine, linked)
              (omega (
                arith,
                insert_movement-booked db next id article l.quantity first,
                ship-booked id ls next db' rest,
              ))
      ]
    ]

    send-booked :
        (db db' : Db d) (now : Now) (i : Invoice d)
        → send d fits db now i ≡ ok db'
        → booked db' i.id ≡ booked db i.id + count_where (is_stocked i.id) db.line_items
    unfolding send
    send-booked db db' now i e =
        let company = db.company in
        elim (Bool-cases (leb i32_max company.next_invoice_number)) [
          | inl full ↦ absurd (cc (rw full at e))
          | inr free ↦ elim (Option-cases (find_customer db.customers i.customer_id)) [
            | inl missing ↦ absurd (cc (rw (free, missing) at e))
            | inr (customer, known) ↦
                let (_, shipped) = >>-eq-ok _ _ (rw (free, known) at e) in
                ship-booked i.id db.line_items _ db' shipped
          ]
        ]

    change_status-booked :
        (db db' : Db d) (now : Now) (i : Invoice d) (target : InvoiceStatus)
        → change_status d fits db now i target ≡ ok db'
        → booked db' i.id
          ≡ booked db i.id
            + (if is_sent target then count_where (is_stocked i.id) db.line_items else 0)
    unfolding change_status
    change_status-booked db db' now i InvoiceStatus.sent e = send-booked db db' now i e
    change_status-booked db db' now i InvoiceStatus.draft e =
        sym (ap (λ (x : Db d). booked x i.id) (ok_injective e)) ∙ omega arith
    change_status-booked db db' now i InvoiceStatus.overdue e =
        sym (ap (λ (x : Db d). booked x i.id) (ok_injective e)) ∙ omega arith
    change_status-booked db db' now i InvoiceStatus.paid e =
        sym (ap (λ (x : Db d). booked x i.id) (ok_injective e)) ∙ omega arith
    change_status-booked db db' now i InvoiceStatus.cancelled e =
        sym (ap (λ (x : Db d). booked x i.id) (ok_injective e)) ∙ omega arith

    -- A status change succeeds only for an invoice that is there and may change so. It books one
    -- stock movement for each line of the invoice that names an article when the invoice is sent,
    -- and none otherwise.
    pub transition_status-books :
        (db db' : Db d) (now : Now) (id : ℕ) (target : InvoiceStatus)
        → transition_status d fits db now id target ≡ ok db'
        → (i : Invoice d) × (find? (has_id d id) db.invoices ≡ some i)
          × (can_transition_to i.status target ≡ true)
          × (booked db' i.id
              ≡ booked db i.id
                + (if is_sent target then count_where (is_stocked i.id) db.line_items else 0))
    transition_status-books db db' now id target e =
        let (i, found, permitted, changed) =
          transition_status-permitted d fits db db' now id target e in
        (i, found, permitted, change_status-booked db db' now i target changed)
