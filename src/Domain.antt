-- ===== src/Domain.antt =====
-- The domain crate, backend/crates/domain/src: invoice states and VAT arithmetic.
pub mod Decimal
pub mod InvoiceStatus
pub mod Vat
mod Tests
