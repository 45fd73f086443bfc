-- ===== src/Invoices/Issue/Tests.antt =====
-- Sending an invoice with one line that names an article. Numbers are differences of two naturals.
use essentials_merchant.Base.{
  ℕ, ◌+◌, ◌*◌, ◌==◌, leb, ◌≡◌, refl, if◌then◌else◌, Bool, true, none, some, [], ◌∷◌, ok, pos, find?,
  count_where,
}
use essentials_merchant.Domain.Decimal.{Decimals}
use essentials_merchant.Domain.InvoiceStatus.{InvoiceStatus, can_transition_to}
use essentials_merchant.Invoices.{
  Invoice, InvoiceLineItem, Db, Customer, CustomerSnapshot, CompanySnapshot, CompanySettings,
  DocumentType, has_id, insert_movement,
}
use essentials_merchant.Invoices.Issue.{Now, transition_status, sent_invoice, numbered, outgoing}
use essentials_merchant.Invoices.Issue.Stock.{booked, is_stocked, transition_status-books}

abbrev signed_decimals : Decimals
signed_decimals = record {
  Decimal = ℕ × ℕ;
  zero = (0, 0);
  hundred = (10000, 0);
  add = λ a b. (a.0 + b.0, a.1 + b.1);
  mul = λ a b. (a.0 * b.0 + a.1 * b.1, a.0 * b.1 + a.1 * b.0);
  div = λ a b. a;
  neg = λ a. (a.1, a.0);
  abs = λ a. if leb a.1 a.0 then a else (a.1, a.0);
  round_half_up = λ a. a;
  eq = λ a b. a.0 + b.1 == b.0 + a.1;
  le = λ a b. leb (a.0 + b.1) (b.0 + a.1);
}

abbrev fits : ℕ × ℕ → Bool
fits a = true

abbrev buyer : CustomerSnapshot
buyer = record {
  customer_number = "K1";
  name = "Muster";
  contact_person = "";
  address_line1 = "Weg 1";
  address_line2 = "";
  zip = "10115";
  city = "Berlin";
  country = "DE";
  ust_id = "";
}

abbrev customer : Customer
customer = record { id = 3; details = buyer }

abbrev seller : CompanySnapshot
seller = record {
  company_name = "Laden";
  owner_name = "";
  address_line1 = "";
  address_line2 = "";
  zip = "";
  city = "";
  country = "DE";
  email = "";
  phone = "";
  tax_id = "";
  vat_id = "";
  iban = "";
  bic = "";
  bank_name = "";
  invoice_footer_note = "";
}

abbrev settings : CompanySettings
settings = record {
  details = seller;
  invoice_number_prefix = "RE";
  next_invoice_number = 1;
  correction_number_prefix = "KR";
  next_correction_number = 1;
  default_payment_terms_days = pos 14;
}

abbrev draft_invoice : Invoice signed_decimals
draft_invoice = record {
  id = 1;
  invoice_number = none;
  customer_id = 3;
  status = InvoiceStatus.draft;
  issue_date = none;
  due_date = none;
  customer_snapshot = none;
  company_snapshot = none;
  net_total = (2000, 0);
  vat_total = (380, 0);
  gross_total = (2380, 0);
  notes = "";
  pdf_path = none;
  sent_at = none;
  paid_at = none;
  cancelled_at = none;
  document_type = DocumentType.invoice;
  corrects_invoice_id = none;
  correction_reason = none;
  correction_idempotency_key = none;
}

abbrev line : InvoiceLineItem signed_decimals
line = record {
  id = 10;
  invoice_id = 1;
  position = 1;
  description = "Kaffee";
  article_id = some 4;
  quantity = (200, 0);
  unit = "Stk";
  unit_price_net = (1000, 0);
  vat_rate_code = "STANDARD";
  vat_rate_percent = (1900, 0);
  net_amount = (2000, 0);
  vat_amount = (380, 0);
  gross_amount = (2380, 0);
}

abbrev today : Now
today = record { time = 5; day = 20000; year = "2024" }

abbrev before : Db signed_decimals
before = record {
  invoices = draft_invoice ∷ [];
  line_items = line ∷ [];
  customers = customer ∷ [];
  company = settings;
  vat_rates = [];
  articles = record { id = 4; stock_quantity = (500, 0) } ∷ [];
  stock_movements = [];
  audit = [];
}

abbrev after : Db signed_decimals
after = record before {
  invoices =
      sent_invoice signed_decimals fits today settings "RE-2024-0001" customer draft_invoice ∷ [];
  company = numbered signed_decimals fits settings;
  articles = record { id = 4; stock_quantity = (500, 200) } ∷ [];
  stock_movements = outgoing signed_decimals fits 1 4 (200, 0) ∷ [];
}

run_send : transition_status signed_decimals fits before today 1 InvoiceStatus.sent ≡ ok after
unfolding transition_status can_transition_to insert_movement
    essentials_merchant.IntegrationAuth.Integers.show_i64
run_send = refl

transition_status-books_example :
    (i : Invoice signed_decimals) × (find? (has_id signed_decimals 1) before.invoices ≡ some i)
    × (can_transition_to i.status InvoiceStatus.sent ≡ true)
    × (booked signed_decimals after i.id
        ≡ booked signed_decimals before i.id
          + count_where (is_stocked signed_decimals i.id) before.line_items)
transition_status-books_example =
    transition_status-books signed_decimals fits before after today 1 InvoiceStatus.sent run_send
