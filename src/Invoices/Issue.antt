-- ===== src/Invoices/Issue.antt =====
-- `transition_status` of backend/crates/db/src/invoices.rs: an invoice is sent, paid, overdue or
-- cancelled. Sending numbers it, fixes what it shows of customer and company, and books the stock.
pub mod Balance
pub mod Stock
mod Tests
use Prim.Native.String.{◌++◌ as append_text}
use essentials_merchant.Base.{
  ℕ, ℤ, pos, negsuc, ◌+◌, ◌-◌, String, str_eq, Bool, true, false, not, ◌&&◌, ◌||◌, Option, none,
  some, List, [], ◌∷◌, if◌then◌else◌, ◌==◌, leb, Result, ok, err, ◌>>=◌, ◌>>◌, raise_if, or_raise,
  find?, any, update_where, i32_max, take_chars, count_chars,
}
use essentials_merchant.Domain.Decimal.{Decimals}
use essentials_merchant.Domain.InvoiceStatus.{InvoiceStatus, can_transition_to}
use essentials_merchant.IntegrationAuth.Integers.{show_i64}
use essentials_merchant.Invoices.{
  Invoice, InvoiceLineItem, Customer, CompanySettings, StockMovement, MovementType, Db, Sqlx,
  has_id, is_numbered, insert_movement,
}

-- The clock of a transaction: `now()`, its day and the text of its year.
pub record Now : Type 0 where
  pub time : ℕ
  pub day : ℕ
  pub year : String

pub data TransitionError : Type 0 where
  not_found sqlx : TransitionError
  invalid_transition : InvoiceStatus → InvoiceStatus → TransitionError

zeros : ℕ → String
zeros n = take_chars n "0000"

-- lpad(text, 4, '0'), which cuts a longer text to its first four characters.
pub lpad : String → String
unfolding zeros
lpad text = take_chars 4 (append_text (zeros (4 - count_chars text)) text)

unfoldable pub number_text : String → String → ℕ → String
unfolding lpad
number_text prefix year n =
    append_text prefix
      (append_text "-" (append_text year (append_text "-" (lpad (show_i64 (pos n))))))

abbrev pub shift_days : ℕ → ℤ → ℕ
shift_days day (pos n) = day + n
shift_days day (negsuc n) = day - (n + 1)

abbrev pub find_customer : List Customer → ℕ → Option Customer
find_customer cs id = find? (λ c. Customer.id c == id) cs

-- A statement of the database inside a transition.
abbrev pub lifted {ℓ} : {A : Type ℓ} → Result Sqlx A → Result TransitionError A
lifted (err e) = err TransitionError.sqlx
lifted (ok a) = ok a

module _ (d : Decimals) (fits : d.Decimal → Bool) where
  open d use {Decimal, neg, abs}

  abbrev pub sent_invoice : Now → CompanySettings → String → Customer → Invoice d → Invoice d
  sent_invoice now company number customer i = record i {
    status = InvoiceStatus.sent;
    invoice_number = some number;
    issue_date = some now.day;
    due_date = some (shift_days now.day company.default_payment_terms_days);
    customer_snapshot = some customer.details;
    company_snapshot = some company.details;
    sent_at = some now.time;
  }

  abbrev pub outgoing : ℕ → ℕ → Decimal → StockMovement d
  outgoing invoice_id article_id quantity = record {
    article_id = article_id;
    movement_type = MovementType.stock_out;
    quantity = neg (abs quantity);
    reference = some invoice_id;
    note = "";
  }

  -- The loop over the lines of the invoice that name an article.
  unfoldable pub ship : ℕ → List (InvoiceLineItem d) → Db d → Result Sqlx (Db d)
  ship invoice_id [] db = ok db
  ship invoice_id (l ∷ ls) db =
      if l.invoice_id == invoice_id
      then elim l.article_id [
        | none ↦ ship invoice_id ls db
        | some article ↦ do
          db' ← insert_movement d fits db (outgoing invoice_id article l.quantity)
          ship invoice_id ls db'
      ]
      else ship invoice_id ls db

  abbrev pub numbered : CompanySettings → CompanySettings
  numbered c = record c { next_invoice_number = c.next_invoice_number + 1 }

  -- The branch of the target `Sent`. `invoice_number` is unique.
  unfoldable pub send : Db d → Now → Invoice d → Result Sqlx (Db d)
  unfolding ship number_text
  send db now i = do
    let company = db.company
    raise_if (leb i32_max company.next_invoice_number) Sqlx.sqlx
    let number = number_text company.invoice_number_prefix now.year company.next_invoice_number
    customer ← or_raise (find_customer db.customers i.customer_id) Sqlx.sqlx
    raise_if (any (is_numbered d number) db.invoices) Sqlx.sqlx
    ship i.id db.line_items (record db {
      company = numbered company;
      invoices =
          update_where (has_id d i.id) (sent_invoice now company number customer) db.invoices;
    })

  abbrev pub closed_at : Now → InvoiceStatus → Invoice d → Invoice d
  closed_at now InvoiceStatus.paid i = record i {
    status = InvoiceStatus.paid;
    paid_at = some now.time;
  }
  closed_at now InvoiceStatus.overdue i = record i { status = InvoiceStatus.overdue }
  closed_at now InvoiceStatus.cancelled i = record i {
    status = InvoiceStatus.cancelled;
    cancelled_at = some now.time;
  }
  closed_at now _ i = i

  -- The match on the target; no transition leads to a draft.
  unfoldable pub change_status : Db d → Now → Invoice d → InvoiceStatus → Result Sqlx (Db d)
  unfolding send
  change_status db now i InvoiceStatus.sent = send db now i
  change_status db now i target =
      ok (record db { invoices = update_where (has_id d i.id) (closed_at now target) db.invoices })

  unfoldable pub transition_status : Db d → Now → ℕ → InvoiceStatus → Result TransitionError (Db d)
  unfolding change_status
  transition_status db now invoice_id target = do
    i ← or_raise (find? (has_id d invoice_id) db.invoices) TransitionError.not_found
    raise_if (not (can_transition_to i.status target))
        (TransitionError.invalid_transition i.status target)
    lifted (change_status db now i target)
