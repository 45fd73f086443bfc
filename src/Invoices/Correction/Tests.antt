-- ===== src/Invoices/Correction/Tests.antt =====
-- The correction of an invoice over 23.70, in numbers that count ten-thousandths.
use essentials_merchant.Base.{
  ℕ, ◌+◌, ◌-◌, ◌*◌, ◌/◌, ◌==◌, leb, ◌≡◌, refl, String, Bool, true, false, none, some, List, [], ◌∷◌,
  ok, pos,
}
use essentials_merchant.Domain.Decimal.{Decimals}
use essentials_merchant.Domain.InvoiceStatus.{InvoiceStatus}
use essentials_merchant.Invoices.{
  Invoice, Db, CompanySnapshot, CompanySettings, AuditEntry, DocumentType,
}
use essentials_merchant.Invoices.Issue.{Now}
use essentials_merchant.Invoices.Correction.{
  CorrectionCreation, create_correction, correction_of, next_correction, trim, is_input_valid,
}
use essentials_merchant.Invoices.Correction.Once.{create_correction-once}

abbrev to_cent : ℕ → ℕ
to_cent n = (n + 50) / 100 * 100

abbrev sample_decimals : Decimals
sample_decimals = record {
  Decimal = ℕ;
  zero = 0;
  hundred = 1000000;
  add = λ a b. a + b;
  mul = λ a b. a * b / 10000;
  div = λ a b. a * 10000 / b;
  neg = λ a. 0 - a;
  abs = λ a. a;
  round_half_up = to_cent;
  eq = λ a b. a == b;
  le = λ a b. leb a b;
}

abbrev seller : CompanySnapshot
seller = record {
  company_name = "Laden";
  owner_name = "";
  address_line1 = "";
  address_line2 = "";
  zip = "";
  city = "";
  country = "DE";
  email = "";
  phone = "";
  tax_id = "";
  vat_id = "";
  iban = "";
  bic = "";
  bank_name = "";
  invoice_footer_note = "";
}

abbrev settings : CompanySettings
settings = record {
  details = seller;
  invoice_number_prefix = "RE";
  next_invoice_number = 2;
  correction_number_prefix = "KR";
  next_correction_number = 1;
  default_payment_terms_days = pos 14;
}

abbrev issued : Invoice sample_decimals
issued = record {
  id = 1;
  invoice_number = some "RE-2024-0001";
  customer_id = 3;
  status = InvoiceStatus.sent;
  issue_date = some 20000;
  due_date = some 20014;
  customer_snapshot = none;
  company_snapshot = some seller;
  net_total = 199000;
  vat_total = 38000;
  gross_total = 237000;
  notes = "";
  pdf_path = none;
  sent_at = some 5;
  paid_at = none;
  cancelled_at = none;
  document_type = DocumentType.invoice;
  corrects_invoice_id = none;
  correction_reason = none;
  correction_idempotency_key = none;
}

abbrev before : Db sample_decimals
before = record {
  invoices = issued ∷ [];
  line_items = [];
  customers = [];
  company = settings;
  vat_rates = [];
  articles = [];
  stock_movements = [];
  audit = [];
}

abbrev today : Now
today = record { time = 9; day = 20001; year = "2024" }

abbrev same_line : ℕ → ℕ
same_line id = id + 100

abbrev entry : AuditEntry
entry = record { actor_user_id = 7; invoice_id = 1; related_invoice_id = 2; idempotency_key = "k" }

abbrev after : Db sample_decimals
after = record before {
  company = next_correction sample_decimals settings;
  invoices =
      correction_of sample_decimals 2 today "KR-2024-0001" "wrong price" "k" issued ∷ issued ∷ [];
  audit = entry ∷ [];
}

abbrev created : CorrectionCreation
created = record { correction_id = 2; duplicate = false }

run_correction :
    create_correction sample_decimals before today 2 same_line 7 1 " wrong price " "k"
    ≡ ok (created, after)
unfolding create_correction essentials_merchant.Base.is_blank
    essentials_merchant.IntegrationAuth.Integers.show_i64
run_correction = refl

again_valid : is_input_valid (trim "again") "k" ≡ true
unfolding trim essentials_merchant.Base.is_blank
again_valid = refl

create_correction-once_example :
    create_correction sample_decimals after today 3 same_line 8 1 "again" "k"
    ≡ ok (record { correction_id = 2; duplicate = true }, after)
create_correction-once_example =
    create_correction-once sample_decimals before after today today 2 3 same_line same_line 7 8 1
      " wrong price " "again" "k" created run_correction again_valid
