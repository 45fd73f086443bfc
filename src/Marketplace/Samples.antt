-- ===== src/Marketplace/Samples.antt =====
-- A connection to the fixture transport with one run in each of two hands: run 7 is queued and run 9
-- waits for its report.
use essentials_merchant.Base.{true, none, some, List, [], ◌∷◌}
use essentials_merchant.Marketplace.{
  MarketplaceDb, AmazonConnection, AmazonReportRun, ArchivedDocument, Order, RunStatus,
  AmazonRunEvent,
}
use essentials_merchant.Marketplace.Json.{object, no_members}
use essentials_merchant.Marketplace.Definitions.{inventory_planning}

abbrev pub demo_connection : AmazonConnection
demo_connection = record {
  id = 1;
  seller_id = "DEMO-SELLER";
  region = "eu";
  secret_ref = "fixture:demo";
  granted_roles = "Brand Analytics" ∷ "Amazon Fulfillment" ∷ [];
  mode = "fixture";
  enabled = true;
  created_at = 10;
}

abbrev pub stock_order : Order
stock_order = record {
  connection_id = 1;
  schedule_id = none;
  marketplace_id = "A1PA6795UKMFR9";
  report_type = inventory_planning;
  data_start_time = none;
  data_end_time = none;
  report_options = object no_members;
  trigger_source = "manual";
  idempotency_key = "amazon-report:7";
}

abbrev pub queued_run : AmazonReportRun
queued_run = record {
  id = 7;
  order = stock_order;
  status = RunStatus.queued;
  attempts = 0;
  poll_attempts = 0;
  next_attempt_at = 100;
  locked_at = none;
  amazon_report_id = none;
  amazon_report_document_id = none;
  failure_code = none;
  failure_message = none;
  requested_at = none;
  completed_at = none;
  created_at = 100;
}

abbrev pub polling_run : AmazonReportRun
polling_run = record queued_run {
  id = 9;
  status = RunStatus.polling;
  amazon_report_id = some "report-9";
}

abbrev pub old_document : ArchivedDocument
old_document = record {
  run_id = 9;
  amazon_report_document_id = "document-9";
  sha256 = "digest";
  content_type = none;
  compression_algorithm = none;
  raw_content = 1 ∷ 2 ∷ [];
  decoded_content = 1 ∷ 2 ∷ [];
  decoded_sha256 = "digest";
  parser_version = none;
  import_status = "pending";
  import_error = none;
}

abbrev pub sample_log : List AmazonRunEvent
sample_log =
    record { run_id = 9; status = RunStatus.polling; message = none }
    ∷ record { run_id = 9; status = RunStatus.queued; message = none }
    ∷ record { run_id = 7; status = RunStatus.queued; message = none }
    ∷ []

abbrev pub sample_db : MarketplaceDb
sample_db = record {
  connections = demo_connection ∷ [];
  marketplaces = [];
  schedules = [];
  runs = queued_run ∷ polling_run ∷ [];
  log = sample_log;
  documents = old_document ∷ [];
  snapshots = [];
  metrics = [];
  jobs = [];
  results = [];
  observations = [];
}
