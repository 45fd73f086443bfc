-- ===== src/Lib.antt =====
-- Essentials+ Merchant keeps the master data, invoices and stock of a small merchant in PostgreSQL
-- and connects them with a shop (Vendure) and with Amazon. This library models the parts of its Rust
-- backend that decide what may happen: they are written as functions from rows to rows, so that a
-- statement of SQL is a function on lists and a transaction is one step. An operation that fails
-- returns an error and drops its transaction; only a success carries a new database.
--
-- Base: names that all modules share, tables as lists (Table), texts (Chars), clamping and
-- saturation (Numbers), keys (Keys).
-- Catalogue, backend/crates/db/src/modules.rs: which modules are enabled. Transition is
-- `transition_state`, Switch is `set_enabled` and `record_connector_health`, Profile is
-- `apply_amazon_read_only_profile` and `amazon_pilot_status`. A row that an UPDATE writes meets the
-- CHECK constraints of migration 0011 or the operation fails.
-- Outbox, backend/crates/db/src/commerce.rs: events for the shop, claimed by workers under a lease,
-- acknowledged, retried with a growing delay or dead; Requeue is `manually_requeue`. Rows that
-- another transaction has locked are a parameter of a claim.
-- IntegrationAuth, backend/crates/server/src/integration_auth.rs: signed requests between services,
-- with the clock's readings as arguments and the cryptographic crates as parameters (`Crates`).
-- Domain, backend/crates/domain/src: the states of an invoice, and VAT over the numbers of
-- rust_decimal, which are a parameter (`Decimals`) with named laws (`DecimalLaws`).
-- Invoices, backend/crates/db/src/invoices.rs and stock_movements.rs: drafts and manual stock
-- movements, LineItems the lines of a draft with the totals, Issue is `transition_status` (which
-- numbers an invoice and books its stock), Correction is `create_correction`. Columns of the type
-- NUMERIC(10, 2) hold the amounts that the parameter `fits` accepts. The triggers of migration 0005
-- (which books a movement) and 0012 (which guards issued invoices) are part of the statements that fire
-- them; those of 0008 (an event for the shop on a change of an article) and of 0014 (accounting entries
-- on a change of status) are not.
-- Pilot, backend/crates/server/src/pilot.rs: which requests pass while the read-only pilot is
-- enabled.
--
-- Marketplace, backend/crates/db/src/marketplace.rs: connections to Amazon, schedules, report runs
-- with their log and archive, snapshots and analysis jobs. Queue inserts runs, Claim is
-- `claim_due_runs` and `enqueue_due_schedules`, Runs, Documents and Snapshots are the writes of the
-- worker, Analysis the jobs. Steps is the relation of those writes, over which the invariants of Log,
-- Archive and Isolation go. Foreign keys and the UNIQUE and CHECK constraints that a write can meet
-- are errors of the write.
-- Worker, backend/crates/server/src/marketplace.rs: `cycle` and `process_run`, for every client of
-- Amazon (`AmazonReportsClient`); Gate has the checks before a call, among them those of the live
-- pilot. `Means` says at which of the writes of a step the database fails, each on its own, besides
-- the constraints that a write may break; Liveness follows a run through four rounds of claim and
-- step. The parsers of reports, the rules of an analysis, the decoder and the digest are
-- parameters. A timestamp past the year 294276 is an error of the write. Time stands still during
-- one step.
-- ManualImport, backend/crates/server/src/manual_import.rs: the cells of an uploaded report. Locale has
-- `parse_locale_decimal`, Cells counts, percentages and money, Dates `parse_flat_date`, Currency the
-- currency of a report. A text is the list of its code points; the decimals of rust_decimal and the
-- date parser of chrono are parameters.
--
-- Bounds: an i64 has at most nineteen digits, so its decimal text is written with twenty as fuel;
-- the difference of two timestamps wraps at 2^64 as in a release build; delays saturate at the
-- largest i32. All other loops are structural.
--
-- Not modelled: sales orders, the import of shop orders and accounting exports, which keep state of
-- their own; of the marketplace store the manual import, the product mappings and the overviews; of
-- an uploaded report its headers, totals and preview; HTTP routing and start-up, PDF and DATEV
-- output, the HTTP calls to Amazon and the report parsers, the strategy assessments, stored
-- provider secrets and plain master data, which are input and output or calls of libraries. Errors
-- of the database connection are left out, except in the steps of the worker; that a write takes
-- effect although its answer is lost is left out there too. The foreign key of an audit entry to
-- its actor is checked in Profile; the other references to users are left out.
pub mod Base
pub mod Catalogue
pub mod Domain
pub mod IntegrationAuth
pub mod Invoices
pub mod ManualImport
pub mod Marketplace
pub mod Outbox
pub mod Pilot
pub mod Worker
