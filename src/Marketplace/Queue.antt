-- ===== src/Marketplace/Queue.antt =====
-- New report runs: the key that makes an insertion idempotent, manual requests and schedules.
use Prim.Native.Char.{code}
use Prim.Native.String.{◌++◌ as append_text}
use essentials_merchant.Base.{
  ℕ, String, str_eq, Bool, true, false, ◌&&◌, ◌||◌, Option, none, some, List, [], ◌∷◌, map,
  if◌then◌else◌, ◌==◌, leb, ltb, find?, any, select, sort_by, Result, ok, err,
}
use essentials_merchant.Marketplace.{
  MarketplaceDb, AmazonConnection, AmazonReportRun, Order, RunStatus, StoreError,
  foreign_key_violation, is_open,
}
use essentials_merchant.Marketplace.Json.{
  Value, Elements, Members, array, object, no_elements, element, no_members, member, value_eq,
}

-- What the libraries print and digest: `Uuid`, `to_rfc3339`, scalars and texts of serde_json, and
-- the digest of a text's bytes.
pub record Formats : Type 0 where
  pub uuid : ℕ → String
  pub rfc3339 : ℕ → String
  pub scalar : Value → String
  pub quoted : String → String
  pub sha256 : String → String

abbrev pub line : List String → String
line [] = ""
line (s ∷ ss) = append_text s (line ss)

abbrev pub join : String → List String → String
join separator [] = ""
join separator (s ∷ []) = s
join separator (s ∷ t ∷ ss) = append_text s (append_text separator (join separator (t ∷ ss)))

-- The order of texts, by code points.
abbrev pub text_leb : String → String → Bool
text_leb String.[] t = true
text_leb (String.◌∷◌ c cs) String.[] = false
text_leb (String.◌∷◌ c cs) (String.◌∷◌ d ds) =
    ltb (code c) (code d) || (code c == code d && text_leb cs ds)

abbrev key_leb : String × String → String × String → Bool
key_leb a b = text_leb a.0 b.0

abbrev print_member : Formats → String × String → String
print_member formats m = line (formats.quoted m.0 ∷ ":" ∷ m.1 ∷ [])

unfoldable mutual
  pub canonical_json : Formats → Value → String
  canonical_json formats (object ms) = line (
      "{"
      ∷ join "," (map (print_member formats) (sort_by key_leb (canonical_members formats ms)))
      ∷ "}"
      ∷ [])
  canonical_json formats (array vs) =
      line ("[" ∷ join "," (canonical_elements formats vs) ∷ "]" ∷ [])
  canonical_json formats v = formats.scalar v

  pub canonical_elements : Formats → Elements → List String
  canonical_elements formats no_elements = []
  canonical_elements formats (element v vs) =
      canonical_json formats v ∷ canonical_elements formats vs

  pub canonical_members : Formats → Members → List (String × String)
  canonical_members formats no_members = []
  canonical_members formats (member k v ms) =
      (k, canonical_json formats v) ∷ canonical_members formats ms

abbrev pub time_or_empty : Formats → Option ℕ → String
time_or_empty formats none = ""
time_or_empty formats (some t) = formats.rfc3339 t

-- What a request asks for, as the arguments of `insert_run` name it.
pub record Request : Type 0 where
  pub connection_id : ℕ
  pub schedule_id : Option ℕ
  pub marketplace_id : String
  pub report_type : String
  pub data_start_time : Option ℕ
  pub data_end_time : Option ℕ
  pub report_options : Value
  pub trigger_source : String

unfoldable pub idempotency_key : Formats → Request → String → String
idempotency_key formats q discriminator = append_text "amazon-report:" (
    formats.sha256 (
      join "|" (
        formats.uuid q.connection_id
        ∷ q.marketplace_id
        ∷ q.report_type
        ∷ time_or_empty formats q.data_start_time
        ∷ time_or_empty formats q.data_end_time
        ∷ canonical_json formats q.report_options
        ∷ discriminator
        ∷ [])))

abbrev pub has_key : String → AmazonReportRun → Bool
has_key key r = str_eq r.order.idempotency_key key

abbrev pub ordered : Request → String → Order
ordered q key = record {
  connection_id = q.connection_id;
  schedule_id = q.schedule_id;
  marketplace_id = q.marketplace_id;
  report_type = q.report_type;
  data_start_time = q.data_start_time;
  data_end_time = q.data_end_time;
  report_options = q.report_options;
  trigger_source = q.trigger_source;
  idempotency_key = key;
}

abbrev pub new_run : ℕ → ℕ → Order → AmazonReportRun
new_run now new_id order = record {
  id = new_id;
  order = order;
  status = RunStatus.queued;
  attempts = 0;
  poll_attempts = 0;
  next_attempt_at = now;
  locked_at = none;
  amazon_report_id = none;
  amazon_report_document_id = none;
  failure_code = none;
  failure_message = none;
  requested_at = none;
  completed_at = none;
  created_at = now;
}

abbrev pub is_connection : ℕ → AmazonConnection → Bool
is_connection id c = c.id == id

-- The row and its first log entry.
abbrev pub with_run : MarketplaceDb → ℕ → ℕ → Order → MarketplaceDb
with_run db now new_id order = record db {
  runs = new_run now new_id order ∷ db.runs;
  log =
      record {
        run_id = new_id;
        status = RunStatus.queued;
        message = some (append_text order.trigger_source " request queued");
      }
      ∷ db.log;
}

-- A run of the same key is returned in place of a second one.
unfoldable pub insert_run :
    Formats
    → MarketplaceDb
    → ℕ
    → ℕ
    → Request
    → String
    → Result StoreError (AmazonReportRun × MarketplaceDb)
unfolding idempotency_key
insert_run formats db now new_id q discriminator =
    let order = ordered q (idempotency_key formats q discriminator) in
    elim (find? (has_key order.idempotency_key) db.runs) [
      | some existing ↦ ok (existing, db)
      | none ↦
          if any (is_connection q.connection_id) db.connections
          then ok (new_run now new_id order, with_run db now new_id order)
          else err foreign_key_violation
    ]

-- IS NOT DISTINCT FROM
abbrev pub same_time : Option ℕ → Option ℕ → Bool
same_time none none = true
same_time (some a) (some b) = a == b
same_time _ _ = false

-- An open manual run of the same parameters.
abbrev pub is_equivalent : Request → AmazonReportRun → Bool
is_equivalent q r =
    r.order.connection_id == q.connection_id
    && str_eq r.order.marketplace_id q.marketplace_id
    && str_eq r.order.report_type q.report_type
    && same_time r.order.data_start_time q.data_start_time
    && same_time r.order.data_end_time q.data_end_time
    && value_eq r.order.report_options q.report_options
    && str_eq r.order.trigger_source "manual"
    && is_open r.status

abbrev pub newest_first : AmazonReportRun → AmazonReportRun → Bool
newest_first a b = leb b.created_at a.created_at

abbrev pub first {ℓ} : {A : Type ℓ} → List A → Option A
first [] = none
first (x ∷ xs) = some x

abbrev manual_request : ℕ → String → String → Option ℕ → Option ℕ → Value → Request
manual_request connection_id marketplace_id report_type start end options = record {
  connection_id = connection_id;
  schedule_id = none;
  marketplace_id = marketplace_id;
  report_type = report_type;
  data_start_time = start;
  data_end_time = end;
  report_options = options;
  trigger_source = "manual";
}

-- `CreateAmazonReportRunInput`
pub record CreateAmazonReportRunInput : Type 0 where
  pub marketplace_id : String
  pub report_type : String
  pub data_start_time : Option ℕ
  pub data_end_time : Option ℕ
  pub report_options : Value

abbrev pub manual : ℕ → CreateAmazonReportRunInput → Request
manual connection_id i =
    manual_request connection_id i.marketplace_id i.report_type i.data_start_time i.data_end_time
      i.report_options

-- `token` is the random part of the discriminator.
unfoldable pub create_manual_run :
    Formats
    → MarketplaceDb
    → ℕ
    → ℕ
    → ℕ
    → ℕ
    → CreateAmazonReportRunInput
    → Result StoreError (AmazonReportRun × MarketplaceDb)
unfolding insert_run
create_manual_run formats db now new_id token connection_id input =
    let q = manual connection_id input in
    elim (first (sort_by newest_first (select (is_equivalent q) db.runs))) [
      | some existing ↦ ok (existing, db)
      | none ↦ insert_run formats db now new_id q (append_text "manual:" (formats.uuid token))
    ]
