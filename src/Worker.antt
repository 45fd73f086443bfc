-- ===== src/Worker.antt =====
-- The marketplace worker, backend/crates/server/src/marketplace.rs. `AmazonReportsClient` is the
-- trait of the same name, its calls as functions of what they are given; the answers of a client
-- that changes its mind are a different client at every call of the worker.
pub mod Gate
pub mod Failure
pub mod Process
pub mod Cycle
pub mod Chain
pub mod Safety
pub mod Liveness
pub mod Progress
mod Tests
use Prim.Native.String.{◌++◌ as append_text}
use essentials_merchant.Base.{
  ℕ, ℤ, pos, negsuc, ◌*◌, ◌^◌, min, max, String, str_eq, Bool, true, false, not, ◌&&◌, ◌||◌, Option,
  none, some, List, [], ◌∷◌, if◌then◌else◌, ◌==◌, leb, ltb, length, all_chars, byte_len,
  is_ascii_alphanumeric, starts_with, ends_with, Result, ok, err, ◌>>=◌,
}
use essentials_merchant.Marketplace.{Bytes, Order, ClaimedReportRun, ParsedSnapshot}
use essentials_merchant.Marketplace.Json.{Value}
use essentials_merchant.Marketplace.Definitions.{
  report_definition, sales_and_traffic, inventory_planning,
}

pub data AmazonOperation : Type 0 where
  lwa_token_refresh create_report get_report : AmazonOperation
  get_report_document download_report_document : AmazonOperation

abbrev pub as_str : AmazonOperation → String
as_str lwa_token_refresh = "lwa_token_refresh"
as_str create_report = "create_report"
as_str get_report = "get_report"
as_str get_report_document = "get_report_document"
as_str download_report_document = "download_report_document"

pub record AmazonTransportObservation : Type 0 where
  pub operation : AmazonOperation
  pub request_id_redacted : Option String
  pub rate_limit_limit : Option String
  pub retry_after_seconds : Option ℤ

pub record AmazonClientResponse (A : Type 0) : Type 0 where
  pub value : A
  pub observations : List AmazonTransportObservation

pub record AmazonReportRequest : Type 0 where
  pub seller_id : String
  pub region : String
  pub secret_ref : String
  pub mode : String
  pub report_type : String
  pub marketplace_id : String
  pub data_start_time : Option ℕ
  pub data_end_time : Option ℕ
  pub report_options : Value

pub data AmazonReportStatus : Type 0 where
  in_progress cancelled : AmazonReportStatus
  done : String → AmazonReportStatus
  fatal : String → AmazonReportStatus

pub record AmazonReportDocument : Type 0 where
  pub document_id : String
  pub url : String
  pub compression_algorithm : Option String

pub data AmazonClientError : Type 0 where
  rate_limited : Option ℤ → AmazonTransportObservation → AmazonClientError
  expired_download_url : AmazonClientError
  retryable : String → AmazonClientError
  permanent : String → AmazonClientError

abbrev pub Answer : Type 0 → Type 0
Answer A = Result AmazonClientError (AmazonClientResponse A)

pub record AmazonReportsClient : Type 0 where
  pub create_report : AmazonReportRequest → Answer String
  pub get_report : AmazonReportRequest → String → Answer AmazonReportStatus
  pub get_report_document : AmazonReportRequest → String → Answer AmazonReportDocument
  pub download_document : AmazonReportDocument → Answer Bytes

-- The client that the mode and the secret reference of a request call for.
unfoldable pub composite_client :
    AmazonReportsClient
    → AmazonReportsClient
    → AmazonReportRequest
    → Result AmazonClientError AmazonReportsClient
composite_client live fixture q =
    let is_fixture = starts_with q.secret_ref "fixture:" in
    if str_eq q.mode "fixture" && is_fixture
    then ok fixture
    else if str_eq q.mode "live" && not is_fixture
    then ok live
    else err (permanent "Amazon connection mode and transport selector do not match")

-- `CompositeAmazonClient`
unfoldable pub composite : AmazonReportsClient → AmazonReportsClient → AmazonReportsClient
unfolding composite_client
composite live fixture = record {
  create_report = λ q. composite_client live fixture q >>= λ c. c.create_report q;
  get_report = λ q id. composite_client live fixture q >>= λ c. c.get_report q id;
  get_report_document = λ q id. composite_client live fixture q >>= λ c. c.get_report_document q id;
  download_document = λ d.
      if starts_with d.url "fixture://"
      then fixture.download_document d
      else live.download_document d;
}

abbrev pub is_id_char : Prim.Native.Char.Char → Bool
is_id_char c =
    is_ascii_alphanumeric c
    || Prim.Native.Char.code c == b'-'
    || Prim.Native.Char.code c == b'_'
    || Prim.Native.Char.code c == b'.'

abbrev pub last_or : Prim.Native.Char.Char → String → Prim.Native.Char.Char
last_or c String.[] = c
last_or c (String.◌∷◌ d s) = last_or d s

unfoldable pub amazon_resource_id_allowed : String → Bool
amazon_resource_id_allowed String.[] = false
amazon_resource_id_allowed (String.◌∷◌ c s) =
    leb (byte_len (String.◌∷◌ c s)) 256
    && is_ascii_alphanumeric c
    && is_ascii_alphanumeric (last_or c s)
    && all_chars is_id_char (String.◌∷◌ c s)

-- The scheme and the host of a URL, as reqwest parses them; none for a text that is no URL or has
-- no host. The loopback exception of test builds is left out.
unfoldable pub download_url_allowed : Option (String × String) → Bool
download_url_allowed none = false
download_url_allowed (some (scheme, host)) =
    str_eq scheme "https"
    && (str_eq host "amazonaws.com"
        || ends_with host ".amazonaws.com"
        || str_eq host "cloudfront.net"
        || ends_with host ".cloudfront.net")

-- The error for an answer that is no success; `message` is the description with
-- the status.
unfoldable pub response_error : ℕ → String → AmazonTransportObservation → AmazonClientError
response_error status message observation =
    if status == 429
    then rate_limited observation.retry_after_seconds observation
    else if leb 500 status && ltb status 600
    then retryable message
    else permanent message

abbrev pub i64_max : ℕ
i64_max = 9223372036854775807

-- Attempts are never negative.
unfoldable pub exponential_backoff : ℕ → ℕ → ℕ → ℕ
exponential_backoff attempt base_seconds max_seconds =
    min (min (base_seconds * 2 ^ min attempt 10) i64_max) max_seconds

unfoldable pub content_type_for : String → String
content_type_for report_type = elim (report_definition report_type) [
  | none ↦ "application/octet-stream"
  | some d ↦ if str_eq d.format "json" then "application/json" else "text/tab-separated-values"
]

abbrev pub max_document_bytes : ℕ
max_document_bytes = 26214400

abbrev pub within_limit : Bytes → Result String Bytes
within_limit output =
    if ltb max_document_bytes (length output)
    then err "Decompressed report exceeds size limit"
    else ok output

-- `gunzip` is the decoder of flate2, an error with its text.
unfoldable pub decompress :
    (Bytes → Result String Bytes) → Bytes → Option String → Result String Bytes
decompress gunzip content none = ok content
decompress gunzip content (some algorithm) =
    if str_eq algorithm "NONE"
    then ok content
    else if str_eq algorithm "GZIP"
    then gunzip content >>= within_limit
    else err (append_text "Unsupported Amazon compression algorithm " algorithm)

-- The two parsers.
pub record Parsers : Type 0 where
  pub parse_sales_and_traffic : Bytes → Option ℕ → Option ℕ → Result String ParsedSnapshot
  pub parse_inventory_planning : Bytes → Result String ParsedSnapshot

unfoldable pub parse_report :
    Parsers → ClaimedReportRun → Bytes → Result String (Option ParsedSnapshot)
parse_report parsers run raw =
    let start = run.order.data_start_time in
    let end = run.order.data_end_time in
    if str_eq run.order.report_type sales_and_traffic
    then (parsers.parse_sales_and_traffic raw start end >>= λ parsed. ok (some parsed))
    else if str_eq run.order.report_type inventory_planning
    then (parsers.parse_inventory_planning raw >>= λ parsed. ok (some parsed))
    else ok none
