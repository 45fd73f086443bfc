-- ===== src/Invoices.antt =====
-- Invoices, backend/crates/db/src/invoices.rs and stock_movements.rs: the rows, the operations on
-- drafts and the booking of stock. Days and times are numbers of days and of microseconds. `fits`
-- says which amounts a NUMERIC(10, 2) column holds; the column rounds what is written to cents.
-- The triggers of migration 0012 refuse a change of the lines of an invoice that is issued, and
-- the one of migration 0005 adds a movement to the stock of its article.
pub mod LineItems
pub mod Issue
pub mod Correction
pub mod Lifecycle
mod Tests
use essentials_merchant.Base.{
  ℕ, ℤ, String, str_eq, Bool, true, false, not, ◌&&◌, ◌||◌, Option, none, some, List, [], ◌∷◌,
  if◌then◌else◌, ◌==◌, Result, ok, err, ◌>>=◌, ◌>>◌, raise_if, or_raise, find?, any, update_where,
  delete_where, count_where,
}
use essentials_merchant.Domain.Decimal.{Decimals}
use essentials_merchant.Domain.InvoiceStatus.{InvoiceStatus}

-- `customer_snapshot`, the columns of a customer that an invoice shows.
pub record CustomerSnapshot : Type 0 where
  pub customer_number : String
  pub name : String
  pub contact_person : String
  pub address_line1 : String
  pub address_line2 : String
  pub zip : String
  pub city : String
  pub country : String
  pub ust_id : String

pub record Customer : Type 0 where
  pub id : ℕ
  pub details : CustomerSnapshot

-- `company_snapshot`
pub record CompanySnapshot : Type 0 where
  pub company_name : String
  pub owner_name : String
  pub address_line1 : String
  pub address_line2 : String
  pub zip : String
  pub city : String
  pub country : String
  pub email : String
  pub phone : String
  pub tax_id : String
  pub vat_id : String
  pub iban : String
  pub bic : String
  pub bank_name : String
  pub invoice_footer_note : String

-- The one row of `company_settings`.
pub record CompanySettings : Type 0 where
  pub details : CompanySnapshot
  pub invoice_number_prefix : String
  pub next_invoice_number : ℕ
  pub correction_number_prefix : String
  pub next_correction_number : ℕ
  pub default_payment_terms_days : ℤ

pub data DocumentType : Type 0 where
  invoice correction : DocumentType

pub record Invoice (d : Decimals) : Type 0 where
  pub id : ℕ
  pub invoice_number : Option String
  pub customer_id : ℕ
  pub status : InvoiceStatus
  pub issue_date : Option ℕ
  pub due_date : Option ℕ
  pub customer_snapshot : Option CustomerSnapshot
  pub company_snapshot : Option CompanySnapshot
  pub net_total : d.Decimal
  pub vat_total : d.Decimal
  pub gross_total : d.Decimal
  pub notes : String
  pub pdf_path : Option String
  pub sent_at : Option ℕ
  pub paid_at : Option ℕ
  pub cancelled_at : Option ℕ
  pub document_type : DocumentType
  pub corrects_invoice_id : Option ℕ
  pub correction_reason : Option String
  pub correction_idempotency_key : Option String

pub record InvoiceLineItem (d : Decimals) : Type 0 where
  pub id : ℕ
  pub invoice_id : ℕ
  pub position : ℕ
  pub description : String
  pub article_id : Option ℕ
  pub quantity : d.Decimal
  pub unit : String
  pub unit_price_net : d.Decimal
  pub vat_rate_code : String
  pub vat_rate_percent : d.Decimal
  pub net_amount : d.Decimal
  pub vat_amount : d.Decimal
  pub gross_amount : d.Decimal

pub record VatRate (d : Decimals) : Type 0 where
  pub code : String
  pub rate_percent : d.Decimal

pub record Article (d : Decimals) : Type 0 where
  pub id : ℕ
  pub stock_quantity : d.Decimal

pub data MovementType : Type 0 where
  stock_in stock_out adjustment : MovementType

-- `reference` is the invoice of a movement of the type 'invoice', none of a manual one.
pub record StockMovement (d : Decimals) : Type 0 where
  pub article_id : ℕ
  pub movement_type : MovementType
  pub quantity : d.Decimal
  pub reference : Option ℕ
  pub note : String

-- A row of `invoice_audit_log`, whose one action is 'invoice.correction_created'.
pub record AuditEntry : Type 0 where
  pub actor_user_id : ℕ
  pub invoice_id : ℕ
  pub related_invoice_id : ℕ
  pub idempotency_key : String

pub record Db (d : Decimals) : Type 0 where
  pub invoices : List (Invoice d)
  pub line_items : List (InvoiceLineItem d)
  pub customers : List Customer
  pub company : CompanySettings
  pub vat_rates : List (VatRate d)
  pub articles : List (Article d)
  pub stock_movements : List (StockMovement d)
  pub audit : List AuditEntry

pub record InvoiceInput : Type 0 where
  pub customer_id : ℕ
  pub notes : String

-- A refusal by the database.
pub data Sqlx : Type 0 where
  sqlx : Sqlx

pub data AdjustmentError : Type 0 where
  invalid_type sqlx : AdjustmentError

abbrev pub is_draft : InvoiceStatus → Bool
is_draft InvoiceStatus.draft = true
is_draft _ = false

module _ (d : Decimals) where
  open d use {Decimal, zero, add, neg, abs, round_half_up, le, eq}

  abbrev pub has_id : ℕ → Invoice d → Bool
  has_id id i = i.id == id

  abbrev pub is_draft_of : ℕ → Invoice d → Bool
  is_draft_of id i = i.id == id && is_draft i.status

  abbrev pub is_numbered : String → Invoice d → Bool
  is_numbered number i = elim (i.invoice_number) [ none ↦ false | some n ↦ str_eq n number ]

  abbrev pub has_customer : Db d → ℕ → Bool
  has_customer db id = any (λ c. Customer.id c == id) db.customers

  abbrev pub new_invoice : ℕ → InvoiceInput → Invoice d
  new_invoice id input = record {
    id = id;
    invoice_number = none;
    customer_id = input.customer_id;
    status = InvoiceStatus.draft;
    issue_date = none;
    due_date = none;
    customer_snapshot = none;
    company_snapshot = none;
    net_total = zero;
    vat_total = zero;
    gross_total = zero;
    notes = input.notes;
    pdf_path = none;
    sent_at = none;
    paid_at = none;
    cancelled_at = none;
    document_type = DocumentType.invoice;
    corrects_invoice_id = none;
    correction_reason = none;
    correction_idempotency_key = none;
  }

  -- `id` is the fresh identifier that the database draws.
  unfoldable pub create : Db d → ℕ → InvoiceInput → Result Sqlx (Invoice d × Db d)
  create db id input = do
    raise_if (not (has_customer db input.customer_id)) Sqlx.sqlx
    ok (new_invoice id input, record db { invoices = new_invoice id input ∷ db.invoices })

  abbrev pub edited : InvoiceInput → Invoice d → Invoice d
  edited input i = record i { customer_id = input.customer_id; notes = input.notes }

  unfoldable pub update : Db d → ℕ → InvoiceInput → Result Sqlx (Option (Invoice d) × Db d)
  update db id input = elim (find? (is_draft_of id) db.invoices) [
    | none ↦ ok (none, db)
    | some i ↦ do
      raise_if (not (has_customer db input.customer_id)) Sqlx.sqlx
      ok (
        some (edited input i),
        record db { invoices = update_where (is_draft_of id) (edited input) db.invoices },
      )
  ]

  -- The lines of a deleted draft go with it: ON DELETE CASCADE.
  unfoldable pub delete : Db d → ℕ → Bool × Db d
  delete db id =
      if any (is_draft_of id) db.invoices
      then (
        true,
        record db {
          invoices = delete_where (is_draft_of id) db.invoices;
          line_items = delete_where (λ l. InvoiceLineItem.invoice_id l == id) db.line_items;
        },
      )
      else (false, db)

  unfoldable pub set_pdf_path : Db d → ℕ → String → Db d
  set_pdf_path db id path = record db {
    invoices = update_where (has_id id) (λ i. record i { pdf_path = some path }) db.invoices;
  }

  abbrev pub is_zero : Decimal → Bool
  is_zero a = eq a zero

  abbrev pub is_positive : Decimal → Bool
  is_positive a = le zero a && not (is_zero a)

  abbrev pub is_negative : Decimal → Bool
  is_negative a = le a zero && not (is_zero a)

  -- The CHECK constraint on the sign of a movement.
  abbrev pub has_sign : MovementType → Decimal → Bool
  has_sign MovementType.stock_in q = is_positive q
  has_sign MovementType.stock_out q = is_negative q
  has_sign MovementType.adjustment q = not (is_zero q)

  abbrev pub stocked : Decimal → Article d → Article d
  stocked q a = record a { stock_quantity = add a.stock_quantity q }

  abbrev pub is_article : ℕ → Article d → Bool
  is_article id a = a.id == id

  -- INSERT INTO stock_movements, its constraints and its trigger.
  unfoldable pub insert_movement : (Decimal → Bool) → Db d → StockMovement d → Result Sqlx (Db d)
  insert_movement fits db m = do
    let q = round_half_up m.quantity
    raise_if (not (fits q && has_sign m.movement_type q)) Sqlx.sqlx
    a ← or_raise (find? (is_article m.article_id) db.articles) Sqlx.sqlx
    raise_if (not (fits (add a.stock_quantity q))) Sqlx.sqlx
    ok (record db {
      stock_movements = record m { quantity = q } ∷ db.stock_movements;
      articles = update_where (is_article m.article_id) (stocked q) db.articles;
    })

  abbrev pub movement_type_of : String → Option MovementType
  movement_type_of text =
      if str_eq text "in"
      then some MovementType.stock_in
      else if str_eq text "out"
      then some MovementType.stock_out
      else if str_eq text "adjustment"
      then some MovementType.adjustment
      else none

  abbrev pub signed_quantity : MovementType → Decimal → Decimal
  signed_quantity MovementType.stock_in q = abs q
  signed_quantity MovementType.stock_out q = neg (abs q)
  signed_quantity MovementType.adjustment q = q

  abbrev pub adjusted : Result Sqlx (Db d) → Result AdjustmentError (Db d)
  adjusted (err e) = err AdjustmentError.sqlx
  adjusted (ok db) = ok db

  -- `create_manual`; the result is the row that `insert_movement` puts first.
  unfoldable pub create_manual :
      (Decimal → Bool) → Db d → ℕ → String → Decimal → String → Result AdjustmentError (Db d)
  create_manual fits db article_id movement_type quantity note = do
    kind ← or_raise (movement_type_of movement_type) AdjustmentError.invalid_type
    let m : StockMovement d = record {
      article_id = article_id;
      movement_type = kind;
      quantity = signed_quantity kind quantity;
      reference = none;
      note = note;
    }
    adjusted (insert_movement fits db m)
