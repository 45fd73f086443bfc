-- ===== src/Invoices/Tests.antt =====
-- Invoices over numbers that count ten-thousandths.
use essentials_merchant.Base.{
  ℕ, ◌+◌, ◌-◌, ◌*◌, ◌/◌, ◌==◌, leb, ◌≡◌, refl, Bool, none, List, [], ◌∷◌, arith, pos,
}
use essentials_merchant.Domain.Decimal.{Decimals, DecimalLaws}
use essentials_merchant.Domain.InvoiceStatus.{InvoiceStatus}
use essentials_merchant.Invoices.{Db, CustomerSnapshot, CompanySnapshot, CompanySettings}
use essentials_merchant.Invoices.LineItems.{LineItemInput}
use essentials_merchant.Invoices.LineItems.Totals.{IsBalanced}
use essentials_merchant.Invoices.Issue.{Now, number_text}
use essentials_merchant.Invoices.Lifecycle.{Op, run, run-IsBalanced}

abbrev to_cent : ℕ → ℕ
to_cent n = (n + 50) / 100 * 100

abbrev sample_decimals : Decimals
sample_decimals = record {
  Decimal = ℕ;
  zero = 0;
  hundred = 1000000;
  add = λ a b. a + b;
  mul = λ a b. a * b / 10000;
  div = λ a b. a * 10000 / b;
  neg = λ a. 0 - a;
  abs = λ a. a;
  round_half_up = to_cent;
  eq = λ a b. a == b;
  le = λ a b. leb a b;
}

sample_laws : DecimalLaws sample_decimals
sample_laws = record {
  add_comm = λ (a b : ℕ). omega arith;
  add_assoc = λ (a b c : ℕ). omega arith;
  zero-add = λ (a : ℕ). omega arith;
  round_idem = λ (a : ℕ). omega arith;
  round-add = λ (a b : ℕ) h k. omega arith;
  eq_iff = λ (a b : ℕ). (λ h. ground arith, λ h. ground arith);
  le_total = λ (a b : ℕ) h. ground arith;
  le_trans = λ (a b c : ℕ) h k. ground arith;
  le_antisymm = λ (a b : ℕ) h k. ground arith;
}

abbrev fits : ℕ → Bool
fits a = leb a 999999999900

abbrev buyer : CustomerSnapshot
buyer = record {
  customer_number = "K1";
  name = "Muster";
  contact_person = "";
  address_line1 = "Weg 1";
  address_line2 = "";
  zip = "10115";
  city = "Berlin";
  country = "DE";
  ust_id = "";
}

abbrev seller : CompanySnapshot
seller = record {
  company_name = "Laden";
  owner_name = "";
  address_line1 = "";
  address_line2 = "";
  zip = "";
  city = "";
  country = "DE";
  email = "";
  phone = "";
  tax_id = "";
  vat_id = "";
  iban = "";
  bic = "";
  bank_name = "";
  invoice_footer_note = "";
}

abbrev settings : CompanySettings
settings = record {
  details = seller;
  invoice_number_prefix = "RE";
  next_invoice_number = 1;
  correction_number_prefix = "KR";
  next_correction_number = 1;
  default_payment_terms_days = pos 14;
}

abbrev store : Db sample_decimals
store = record {
  invoices = [];
  line_items = [];
  customers = record { id = 3; details = buyer } ∷ [];
  company = settings;
  vat_rates = record { code = "STANDARD"; rate_percent = 190000 } ∷ [];
  articles = [];
  stock_movements = [];
  audit = [];
}

abbrev service : LineItemInput sample_decimals
service = record {
  description = "Beratung";
  article_id = none;
  quantity = 15000;
  unit = "h";
  unit_price_net = 333300;
  vat_rate_code = "STANDARD";
}

abbrev today : Now
today = record { time = 5; day = 20000; year = "2024" }

abbrev operations : List (Op sample_decimals)
operations =
    Op.creates 1 (record { customer_id = 3; notes = "" })
    ∷ Op.adds_line 10 1 service
    ∷ Op.adds_line 11 1 service
    ∷ Op.deletes_line 1 10
    ∷ Op.moves today 1 InvoiceStatus.sent
    ∷ []

-- The number is padded to four digits, and cut to four beyond them.
first_number : number_text "RE" "2024" 7 ≡ "RE-2024-0007"
unfolding number_text essentials_merchant.IntegrationAuth.Integers.show_i64
first_number = refl

large_number : number_text "RE" "2024" 10000 ≡ number_text "RE" "2024" 1000
unfolding number_text essentials_merchant.IntegrationAuth.Integers.show_i64
large_number = refl

store-IsBalanced : IsBalanced sample_decimals store
store-IsBalanced = record { lines = tt; invoices = tt }

run-IsBalanced_example : IsBalanced sample_decimals (run sample_decimals fits operations store)
run-IsBalanced_example =
    run-IsBalanced sample_decimals fits sample_laws operations store store-IsBalanced
