-- ===== src/Invoices/Correction.antt =====
-- `create_correction` of backend/crates/db/src/invoices.rs: the one full correction of an issued
-- invoice, once per idempotency key. The advisory lock makes calls with one key follow each other.
pub mod Once
mod Tests
use Prim.Native.String.{◌++◌ as append_text}
use essentials_merchant.Base.{
  ℕ, ◌+◌, String, str_eq, Bool, true, false, not, ◌&&◌, ◌||◌, Option, none, some, List, ◌∷◌, ◌++◌,
  map, if◌then◌else◌, ◌==◌, ltb, leb, Result, ok, err, ◌>>=◌, ◌>>◌, raise_if, or_raise, find?, any,
  select, i32_max, is_empty, is_blank, byte_len, is_whitespace,
}
use essentials_merchant.Domain.Decimal.{Decimals}
use essentials_merchant.Domain.InvoiceStatus.{InvoiceStatus}
use essentials_merchant.Invoices.{
  Invoice, InvoiceLineItem, CompanySettings, DocumentType, AuditEntry, Db, has_id, is_draft,
  is_numbered,
}
use essentials_merchant.Invoices.Issue.{Now, number_text}

pub data CorrectionError : Type 0 where
  not_found not_issued correction_of_correction already_corrected : CorrectionError
  invalid_input sqlx : CorrectionError

pub record CorrectionCreation : Type 0 where
  pub correction_id : ℕ
  pub duplicate : Bool

trim_start : String → String
trim_start String.[] = ""
trim_start (String.◌∷◌ c s) =
    let rest = trim_start s in if is_whitespace c then rest else String.◌∷◌ c s

trim_end : String → String
trim_end String.[] = ""
trim_end (String.◌∷◌ c s) =
    let rest = trim_end s in if is_whitespace c && is_empty rest then "" else String.◌∷◌ c rest

pub trim : String → String
unfolding trim_start trim_end
trim s = trim_end (trim_start s)

abbrev pub is_input_valid : String → String → Bool
is_input_valid reason key =
    not (is_empty reason || ltb 1000 (byte_len reason) || is_blank key || ltb 200 (byte_len key))

abbrev pub is_invoice : DocumentType → Bool
is_invoice DocumentType.invoice = true
is_invoice DocumentType.correction = false

module _ (d : Decimals) where
  open d use {Decimal, neg, abs}

  abbrev pub has_correction_key : String → Invoice d → Bool
  has_correction_key key i = elim (i.correction_idempotency_key) [
    | none ↦ false
    | some k ↦ str_eq k key
  ]

  abbrev pub corrects : ℕ → Invoice d → Bool
  corrects id i = elim (i.corrects_invoice_id) [ none ↦ false | some n ↦ n == id ]

  abbrev pub number_or_default : Option String → String
  number_or_default none = "issued invoice"
  number_or_default (some n) = n

  abbrev pub reversed : Decimal → Decimal
  reversed a = neg (abs a)

  -- The inserted draft after the UPDATE that issues it.
  abbrev pub correction_of : ℕ → Now → String → String → String → Invoice d → Invoice d
  correction_of id now number reason key original = record {
    id = id;
    invoice_number = some number;
    customer_id = original.customer_id;
    status = InvoiceStatus.sent;
    issue_date = some now.day;
    due_date = some now.day;
    customer_snapshot = original.customer_snapshot;
    company_snapshot = original.company_snapshot;
    net_total = reversed original.net_total;
    vat_total = reversed original.vat_total;
    gross_total = reversed original.gross_total;
    notes =
        append_text "Full correction of "
          (append_text (number_or_default original.invoice_number) (append_text ": " reason));
    pdf_path = none;
    sent_at = some now.time;
    paid_at = none;
    cancelled_at = none;
    document_type = DocumentType.correction;
    corrects_invoice_id = some original.id;
    correction_reason = some reason;
    correction_idempotency_key = some key;
  }

  abbrev pub reversed_line : (ℕ → ℕ) → ℕ → InvoiceLineItem d → InvoiceLineItem d
  reversed_line fresh_line id l = record l {
    id = fresh_line l.id;
    invoice_id = id;
    quantity = reversed l.quantity;
    net_amount = reversed l.net_amount;
    vat_amount = reversed l.vat_amount;
    gross_amount = reversed l.gross_amount;
  }

  -- `id` and `fresh_line` are the identifiers that the database draws.
  pub reversed_lines : (ℕ → ℕ) → ℕ → ℕ → List (InvoiceLineItem d) → List (InvoiceLineItem d)
  reversed_lines fresh_line id original_id ls =
      map (reversed_line fresh_line id)
        (select (λ l. InvoiceLineItem.invoice_id l == original_id) ls)

  abbrev pub next_correction : CompanySettings → CompanySettings
  next_correction c = record c { next_correction_number = c.next_correction_number + 1 }

  -- The writes, once every check has passed.
  pub write_correction :
      Db d
      → Now
      → ℕ
      → (ℕ → ℕ)
      → ℕ
      → Invoice d
      → String
      → String
      → Result CorrectionError (CorrectionCreation × Db d)
  unfolding number_text reversed_lines
  write_correction db now id fresh_line actor original reason key = do
    let company = db.company
    raise_if (leb i32_max company.next_correction_number) CorrectionError.sqlx
    let number =
        number_text company.correction_number_prefix now.year company.next_correction_number
    raise_if (any (is_numbered d number) db.invoices) CorrectionError.sqlx
    raise_if (any (λ e. str_eq (AuditEntry.idempotency_key e) key) db.audit) CorrectionError.sqlx
    let entry : AuditEntry = record {
      actor_user_id = actor;
      invoice_id = original.id;
      related_invoice_id = id;
      idempotency_key = key;
    }
    ok (
      record { correction_id = id; duplicate = false },
      record db {
        company = next_correction company;
        invoices = correction_of id now number reason key original ∷ db.invoices;
        line_items = reversed_lines fresh_line id original.id db.line_items ++ db.line_items;
        audit = entry ∷ db.audit;
      },
    )

  abbrev pub prior_or_write :
      Db d
      → Now
      → ℕ
      → (ℕ → ℕ)
      → ℕ
      → Invoice d
      → String
      → String
      → Option (Invoice d)
      → Result CorrectionError (CorrectionCreation × Db d)
  prior_or_write db now id fresh_line actor original reason key none =
      write_correction db now id fresh_line actor original reason key
  prior_or_write db now id fresh_line actor original reason key (some prior) =
      if has_correction_key key prior
      then ok (record { correction_id = prior.id; duplicate = true }, db)
      else err CorrectionError.already_corrected

  -- What follows the look-up of the idempotency key.
  pub correct_original :
      Db d
      → Now
      → ℕ
      → (ℕ → ℕ)
      → ℕ
      → ℕ
      → String
      → String
      → Result CorrectionError (CorrectionCreation × Db d)
  unfolding write_correction
  correct_original db now id fresh_line actor original_id reason key = do
    original ← or_raise (find? (has_id d original_id) db.invoices) CorrectionError.not_found
    raise_if (is_draft original.status) CorrectionError.not_issued
    raise_if (not (is_invoice original.document_type)) CorrectionError.correction_of_correction
    prior_or_write db now id fresh_line actor original reason key
        (find? (corrects original_id) db.invoices)

  unfoldable pub create_correction :
      Db d
      → Now
      → ℕ
      → (ℕ → ℕ)
      → ℕ
      → ℕ
      → String
      → String
      → Result CorrectionError (CorrectionCreation × Db d)
  unfolding correct_original trim
  create_correction db now id fresh_line actor original_id text key =
      if not (is_input_valid (trim text) key)
      then err CorrectionError.invalid_input
      else elim (find? (has_correction_key key) db.invoices) [
        | none ↦ correct_original db now id fresh_line actor original_id (trim text) key
        | some existing ↦
            if corrects original_id existing
            then ok (record { correction_id = existing.id; duplicate = true }, db)
            else err CorrectionError.invalid_input
      ]
