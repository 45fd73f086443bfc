-- ===== src/Marketplace/Documents.antt =====
-- The archive of downloaded documents. `sha256` is the digest of the library sha2.
use essentials_merchant.Base.{
  ℕ, String, str_eq, Bool, Option, none, some, ◌∷◌, if◌then◌else◌, ◌==◌, find?, update_where,
  Result, ok, err, ◌>>=◌,
}
use essentials_merchant.Marketplace.{
  MarketplaceDb, AmazonReportRun, RunStatus, StoreError, protocol, ArchivedDocument, Bytes,
}
use essentials_merchant.Marketplace.Runs.{append_run_event, update_run, mark_run_failure}

abbrev pub is_document_of : ℕ → ArchivedDocument → Bool
is_document_of id d = d.run_id == id

unfoldable pub document_of : ℕ → MarketplaceDb → Option ArchivedDocument
document_of id db = find? (is_document_of id) db.documents

abbrev pub archive_kept : ℕ → AmazonReportRun → AmazonReportRun
archive_kept now r = record r {
  status = RunStatus.parsing;
  next_attempt_at = now;
  locked_at = none;
}

-- The document is already there with the same digest, or it is inserted.
unfoldable pub keep_document : MarketplaceDb → ArchivedDocument → Result StoreError MarketplaceDb
unfolding document_of
keep_document db new = elim (document_of new.run_id db) [
  | none ↦ ok (record db { documents = new ∷ db.documents })
  | some old ↦
      if str_eq old.sha256 new.sha256
      then ok db
      else err (protocol "downloaded report content differs from immutable archive")
]

abbrev pub new_document :
    (Bytes → String) → ℕ → String → Option String → Option String → Bytes → Bytes → ArchivedDocument
new_document sha256 id document_id content_type compression raw decoded = record {
  run_id = id;
  amazon_report_document_id = document_id;
  sha256 = sha256 raw;
  content_type = content_type;
  compression_algorithm = compression;
  raw_content = raw;
  decoded_content = decoded;
  decoded_sha256 = sha256 decoded;
  parser_version = none;
  import_status = "pending";
  import_error = none;
}

unfoldable pub archive_document :
    (Bytes → String)
    → MarketplaceDb
    → ℕ
    → ℕ
    → String
    → Option String
    → Option String
    → Bytes
    → Bytes
    → Result StoreError MarketplaceDb
archive_document sha256 db now id document_id content_type compression raw decoded = do
  db' ← keep_document db (new_document sha256 id document_id content_type compression raw decoded)
  append_run_event (update_run id (archive_kept now) db') id RunStatus.parsing
      (some "Raw report archived with SHA-256 checksum")

-- The id of the document and its decoded bytes.
unfoldable pub load_document_for_parsing : MarketplaceDb → ℕ → Option (String × Bytes)
unfolding document_of
load_document_for_parsing db id = elim (document_of id db) [
  | none ↦ none
  | some d ↦ some (d.amazon_report_document_id, d.decoded_content)
]

abbrev pub with_import :
    Option String → String → Option String → ArchivedDocument → ArchivedDocument
with_import parser_version import_status import_error d = record d {
  parser_version = parser_version;
  import_status = import_status;
  import_error = import_error;
}

-- `mark_document_import` and `mark_document_import_tx`
unfoldable pub mark_document_import :
    MarketplaceDb → ℕ → Option String → String → Option String → MarketplaceDb
mark_document_import db id parser_version import_status import_error = record db {
  documents =
      update_where (is_document_of id) (with_import parser_version import_status import_error)
        db.documents;
}

abbrev pub archived_raw : ℕ → AmazonReportRun → AmazonReportRun
archived_raw now r = record r {
  status = RunStatus.archived;
  completed_at = some now;
  locked_at = none;
}

abbrev pub or_raw_only : Option String → String
or_raw_only none = "raw-only"
or_raw_only (some version) = version

unfoldable pub mark_run_archived :
    MarketplaceDb → ℕ → ℕ → Option String → String → Result StoreError MarketplaceDb
unfolding mark_document_import
mark_run_archived db now id parser_version message =
    append_run_event
      (update_run id (archived_raw now) (
        mark_document_import db id (some (or_raw_only parser_version)) "unsupported"
          (some message)))
      id RunStatus.archived (some message)

-- The import is marked in a transaction of its own.
unfoldable pub mark_parse_failure :
    MarketplaceDb → ℕ → ℕ → String → String → MarketplaceDb × Result StoreError MarketplaceDb
unfolding mark_document_import
mark_parse_failure db now id parser_version message =
    let db' = mark_document_import db id (some parser_version) "failed" (some message) in
    (db', mark_run_failure db' now id "parser_error" message none)
