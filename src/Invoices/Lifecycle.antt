-- ===== src/Invoices/Lifecycle.antt =====
-- Every sequence of operations on drafts and of status changes: the amounts always add up.
use essentials_merchant.Base.{
  ℕ, String, ◌≡◌, refl, sym, ap, subst, inl, inr, Bool, Option, some, List, [], ◌∷◌, ◌==◌, Result,
  ok, err, find?, any, update_where, All-update_where, Bool-cases, Option-cases, >>-eq-ok,
  ok_injective,
}
use essentials_merchant.Domain.Decimal.{Decimals, DecimalLaws}
use essentials_merchant.Domain.InvoiceStatus.{InvoiceStatus}
use essentials_merchant.Invoices.{
  Invoice, InvoiceLineItem, InvoiceInput, Db, has_id, is_draft_of, new_invoice, edited, create,
  update, delete, set_pdf_path,
}
use essentials_merchant.Invoices.LineItems.{
  LineItemInput, add_line_item, update_line_item, delete_line_item,
}
use essentials_merchant.Invoices.LineItems.Totals.{
  IsExactLine, IsExactInvoice, IsBalanced, add_line_item-IsBalanced, update_line_item-IsBalanced,
  delete_line_item-IsBalanced, delete_where-All,
}
use essentials_merchant.Invoices.Issue.{Now, transition_status}
use essentials_merchant.Invoices.Issue.Balance.{
  change_status-IsBalanced, transition_status-permitted,
}

-- One call, with the identifiers that the database draws.
pub data Op (d : Decimals) : Type 0 where
  creates : ℕ → InvoiceInput → Op d
  updates : ℕ → InvoiceInput → Op d
  deletes : ℕ → Op d
  stores_pdf : ℕ → String → Op d
  adds_line : ℕ → ℕ → LineItemInput d → Op d
  updates_line : ℕ → ℕ → LineItemInput d → Op d
  deletes_line : ℕ → ℕ → Op d
  moves : Now → ℕ → InvoiceStatus → Op d

-- A refused call leaves the database as it was.
abbrev pub after {ℓ} : {E : Type ℓ} {A B : Type 0} → (A → B) → B → Result E A → B
after f b (ok a) = f a
after f b (err e) = b

after-holds {ℓ} :
    {E : Type ℓ} {A B : Type 0} (P : B → Type 0) (f : A → B) (b : B) (r : Result E A)
    → P b
    → ((a : A) → r ≡ ok a → P (f a))
    → P (after f b r)
after-holds P f b (ok a) h k = k a refl
after-holds P f b (err e) h k = h

module _ (d : Decimals) (fits : d.Decimal → Bool) where
  pub apply : Op d → Db d → Db d
  apply (Op.creates id input) db = after (λ r. r.1) db (create d db id input)
  apply (Op.updates id input) db = after (λ r. r.1) db (update d db id input)
  apply (Op.deletes id) db = (delete d db id).1
  apply (Op.stores_pdf id path) db = set_pdf_path d db id path
  apply (Op.adds_line id invoice_id input) db =
      after (λ r. r.1) db (add_line_item d fits db id invoice_id input)
  apply (Op.updates_line invoice_id id input) db =
      after (λ r. r.1) db (update_line_item d fits db invoice_id id input)
  apply (Op.deletes_line invoice_id id) db =
      after (λ r. r.1) db (delete_line_item d fits db invoice_id id)
  apply (Op.moves now id target) db = after (λ r. r) db (transition_status d fits db now id target)

  pub run : List (Op d) → Db d → Db d
  unfolding apply
  run [] db = db
  run (op ∷ ops) db = run ops (apply op db)

module _ (d : Decimals) (fits : d.Decimal → Bool) where
  module _ (laws : DecimalLaws d) where
    create-IsBalanced :
        (db db' : Db d) (id : ℕ) (input : InvoiceInput) (i : Invoice d)
        → IsBalanced d db
        → create d db id input ≡ ok (i, db')
        → IsBalanced d db'
    unfolding create
    create-IsBalanced db db' id input i v e =
        let (_, done) = >>-eq-ok _ _ e in
        let base : Db d = record db { invoices = new_invoice d id input ∷ db.invoices } in
        let next : IsBalanced d base = record {
          lines = v.lines;
          invoices = (sym (laws.zero-add d.zero), v.invoices);
        } in
        subst (IsBalanced d) (ap (λ (r : Invoice d × Db d). r.1) (ok_injective done)) next

    update-IsBalanced :
        (db db' : Db d) (id : ℕ) (input : InvoiceInput) (i : Option (Invoice d))
        → IsBalanced d db
        → update d db id input ≡ ok (i, db')
        → IsBalanced d db'
    unfolding update
    update-IsBalanced db db' id input i v e =
        elim (Option-cases (find? (is_draft_of d id) db.invoices)) [
          | inl missing ↦
              subst (IsBalanced d)
                (ap (λ (r : Option (Invoice d) × Db d). r.1)
                  (ok_injective (rw (missing, update) at e)))
                v
          | inr (found, there) ↦
              let (_, done) = >>-eq-ok _ _ (rw (there, update) at e) in
              let base : Db d = record db {
                invoices = update_where (is_draft_of d id) (edited d input) db.invoices;
              } in
              let next : IsBalanced d base = record {
                lines = v.lines;
                invoices =
                    All-update_where (IsExactInvoice d) (is_draft_of d id) (edited d input)
                      db.invoices (λ j h hit. h) v.invoices;
              } in
              subst (IsBalanced d) (ap (λ (r : Option (Invoice d) × Db d). r.1) (ok_injective done))
                next
        ]

    delete-IsBalanced : (db : Db d) (id : ℕ) → IsBalanced d db → IsBalanced d (delete d db id).1
    unfolding delete
    delete-IsBalanced db id v = elim (Bool-cases (any (is_draft_of d id) db.invoices)) [
      | inl there ↦
          rw (there, delete)
            (record {
              lines =
                  delete_where-All (IsExactLine d) (λ l. InvoiceLineItem.invoice_id l == id)
                    db.line_items v.lines;
              invoices =
                  delete_where-All (IsExactInvoice d) (is_draft_of d id) db.invoices v.invoices;
            })
      | inr missing ↦ rw (missing, delete) v
    ]

    apply-IsBalanced : (op : Op d) (db : Db d) → IsBalanced d db → IsBalanced d (apply d fits op db)
    unfolding apply set_pdf_path
    apply-IsBalanced (Op.creates id input) db v =
        after-holds (IsBalanced d) (λ r. r.1) db (create d db id input) v
          (λ r e. create-IsBalanced db r.1 id input r.0 v e)
    apply-IsBalanced (Op.updates id input) db v =
        after-holds (IsBalanced d) (λ r. r.1) db (update d db id input) v
          (λ r e. update-IsBalanced db r.1 id input r.0 v e)
    apply-IsBalanced (Op.deletes id) db v = delete-IsBalanced db id v
    apply-IsBalanced (Op.stores_pdf id path) db v = record {
      lines = v.lines;
      invoices =
          All-update_where (IsExactInvoice d) (has_id d id) (λ i. record i { pdf_path = some path })
            db.invoices (λ j h hit. h) v.invoices;
    }
    apply-IsBalanced (Op.adds_line id invoice_id input) db v =
        after-holds (IsBalanced d) (λ r. r.1) db (add_line_item d fits db id invoice_id input) v
          (λ r e. add_line_item-IsBalanced d laws fits db r.1 id invoice_id input r.0 v e)
    apply-IsBalanced (Op.updates_line invoice_id id input) db v =
        after-holds (IsBalanced d) (λ r. r.1) db (update_line_item d fits db invoice_id id input) v
          (λ r e. update_line_item-IsBalanced d laws fits db r.1 invoice_id id input r.0 v e)
    apply-IsBalanced (Op.deletes_line invoice_id id) db v =
        after-holds (IsBalanced d) (λ r. r.1) db (delete_line_item d fits db invoice_id id) v
          (λ r e. delete_line_item-IsBalanced d laws fits db r.1 invoice_id id r.0 v e)
    apply-IsBalanced (Op.moves now id target) db v =
        after-holds (IsBalanced d) (λ r. r) db (transition_status d fits db now id target) v
          (λ r e.
            let (i, _, _, changed) = transition_status-permitted d fits db r now id target e in
            change_status-IsBalanced d fits db r now i target v changed)

    -- Where the gross amount of each line and the gross total of each invoice are the exact sums of
    -- net amount and VAT, they stay so over every sequence of edits of drafts and lines, status
    -- changes and stored PDF paths, for numbers that obey the laws of decimals.
    pub run-IsBalanced :
        (ops : List (Op d)) (db : Db d) → IsBalanced d db → IsBalanced d (run d fits ops db)
    unfolding run
    run-IsBalanced [] db v = v
    run-IsBalanced (op ∷ ops) db v =
        run-IsBalanced ops (apply d fits op db) (apply-IsBalanced op db v)
