-- ===== src/Invoices/LineItems.antt =====
-- `add_line_item`, `update_line_item` and `delete_line_item` of backend/crates/db/src/invoices.rs.
pub mod Totals
use essentials_merchant.Base.{
  ℕ, ◌+◌, max, String, str_eq, Bool, true, false, not, ◌&&◌, ◌||◌, Option, none, some, List, [],
  ◌∷◌, if◌then◌else◌, ◌==◌, Result, ok, err, ◌>>=◌, ◌>>◌, raise_if, or_raise, find?, any, select,
  update_where, delete_where,
}
use essentials_merchant.Domain.Decimal.{Decimals}
use essentials_merchant.Domain.Vat.{round_money, calc_vat}
use essentials_merchant.Invoices.{
  Invoice, InvoiceLineItem, VatRate, Db, Sqlx, has_id, is_draft, is_draft_of, is_article,
}

pub record LineItemInput (d : Decimals) : Type 0 where
  pub description : String
  pub article_id : Option ℕ
  pub quantity : d.Decimal
  pub unit : String
  pub unit_price_net : d.Decimal
  pub vat_rate_code : String

module _ (d : Decimals) where
  open d use {Decimal, zero, add, mul, round_half_up}

  abbrev pub of_invoice : ℕ → InvoiceLineItem d → Bool
  of_invoice id l = l.invoice_id == id

  abbrev pub is_line : ℕ → ℕ → InvoiceLineItem d → Bool
  is_line invoice_id id l = l.id == id && l.invoice_id == invoice_id

  -- COALESCE(SUM(…), 0)
  abbrev pub sum_of : (InvoiceLineItem d → Decimal) → List (InvoiceLineItem d) → Decimal
  sum_of g [] = zero
  sum_of g (l ∷ ls) = add (g l) (sum_of g ls)

  abbrev pub max_position : List (InvoiceLineItem d) → ℕ
  max_position [] = 0
  max_position (l ∷ ls) = max l.position (max_position ls)

  abbrev pub lines_of : List (InvoiceLineItem d) → ℕ → List (InvoiceLineItem d)
  lines_of ls id = select (of_invoice id) ls

  abbrev pub with_totals : List (InvoiceLineItem d) → Invoice d → Invoice d
  with_totals ls i = record i {
    net_total = sum_of (λ l. l.net_amount) ls;
    vat_total = sum_of (λ l. l.vat_amount) ls;
    gross_total = sum_of (λ l. l.gross_amount) ls;
  }

  abbrev pub rate_of : List (VatRate d) → String → Option Decimal
  rate_of [] code = none
  rate_of (r ∷ rs) code =
      let rest = rate_of rs code in if str_eq r.code code then some r.rate_percent else rest

  abbrev pub article_exists : Db d → Option ℕ → Bool
  article_exists db none = true
  article_exists db (some id) = any (is_article d id) db.articles

  -- The columns that an input sets, at the rate of the day.
  pub priced : ℕ → ℕ → ℕ → LineItemInput d → Decimal → InvoiceLineItem d
  priced id invoice_id position input rate =
      let net = round_money d (mul input.quantity input.unit_price_net) in
      let (vat, gross) = calc_vat d net rate in
      record {
        id = id;
        invoice_id = invoice_id;
        position = position;
        description = input.description;
        article_id = input.article_id;
        quantity = round_half_up input.quantity;
        unit = input.unit;
        unit_price_net = round_half_up input.unit_price_net;
        vat_rate_code = input.vat_rate_code;
        vat_rate_percent = rate;
        net_amount = net;
        vat_amount = vat;
        gross_amount = gross;
      }

module _ (d : Decimals) (fits : d.Decimal → Bool) where
  open d use {Decimal}

  abbrev pub totals_fit : List (InvoiceLineItem d) → Bool
  totals_fit ls =
      fits (sum_of d (λ l. l.net_amount) ls)
      && fits (sum_of d (λ l. l.vat_amount) ls)
      && fits (sum_of d (λ l. l.gross_amount) ls)

  pub recompute_totals : Db d → ℕ → Result Sqlx (Db d)
  recompute_totals db id = do
    let ls = lines_of d db.line_items id
    raise_if (not (totals_fit ls)) Sqlx.sqlx
    ok (record db { invoices = update_where (has_id d id) (with_totals d ls) db.invoices })

  abbrev pub line_fits : InvoiceLineItem d → Bool
  line_fits l =
      fits l.quantity
      && fits l.unit_price_net
      && fits l.net_amount
      && fits l.vat_amount
      && fits l.gross_amount

  -- The trigger lets only the lines of a draft change, and the foreign keys hold.
  abbrev pub may_write : Db d → InvoiceLineItem d → Bool
  may_write db l =
      any (is_draft_of d l.invoice_id) db.invoices
      && article_exists d db l.article_id
      && line_fits l

  unfoldable pub add_line_item :
      Db d → ℕ → ℕ → LineItemInput d → Result Sqlx (InvoiceLineItem d × Db d)
  unfolding recompute_totals
  add_line_item db fresh invoice_id input = do
    rate ← or_raise (rate_of d db.vat_rates input.vat_rate_code) Sqlx.sqlx
    let next_position = max_position d (lines_of d db.line_items invoice_id) + 1
    let l = priced d fresh invoice_id next_position input rate
    raise_if (not (may_write db l)) Sqlx.sqlx
    db' ← recompute_totals (record db { line_items = l ∷ db.line_items }) invoice_id
    ok (l, db')

  unfoldable pub update_line_item :
      Db d → ℕ → ℕ → LineItemInput d → Result Sqlx (Option (InvoiceLineItem d) × Db d)
  unfolding recompute_totals
  update_line_item db invoice_id id input = do
    rate ← or_raise (rate_of d db.vat_rates input.vat_rate_code) Sqlx.sqlx
    elim (find? (is_line d invoice_id id) db.line_items) [
      | none ↦ ok (none, db)
      | some old ↦ do
        let l = priced d id invoice_id old.position input rate
        raise_if (not (may_write db l)) Sqlx.sqlx
        db' ←
            recompute_totals
              (record db {
                line_items = update_where (is_line d invoice_id id) (λ _. l) db.line_items;
              })
              invoice_id
        ok (some l, db')
    ]

  unfoldable pub delete_line_item : Db d → ℕ → ℕ → Result Sqlx (Bool × Db d)
  unfolding recompute_totals
  delete_line_item db invoice_id id =
      if not (any (is_line d invoice_id id) db.line_items) then ok (false, db) else do
        raise_if (not (any (is_draft_of d invoice_id) db.invoices)) Sqlx.sqlx
        db' ←
            recompute_totals
              (record db { line_items = delete_where (is_line d invoice_id id) db.line_items })
              invoice_id
        ok (true, db')
