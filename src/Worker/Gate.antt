-- ===== src/Worker/Gate.antt =====
-- The checks that a claimed run passes before the worker calls Amazon for it.
use Prim.Native.String.{◌++◌ as append_text}
use essentials_merchant.Base.{
  ℕ, ◌+◌, ◌-◌, ◌/◌, String, str_eq, Bool, true, false, not, ◌&&◌, ◌||◌, Option, none, some, List,
  [], ◌∷◌, if◌then◌else◌, ◌==◌, leb, ltb, count_where, select, sort_by, find?, all_chars, byte_len,
  is_ascii_digit, is_blank,
}
use Prim.Native.Char.{Char, code}
use essentials_merchant.Marketplace.{
  MarketplaceDb, AmazonReportRun, ClaimedReportRun, AmazonConnection, MetricSnapshot, RunStatus,
  is_open, is_run,
}
use essentials_merchant.Marketplace.Json.{Value, text, object, no_members, member, value_eq}
use essentials_merchant.Marketplace.Definitions.{
  sales_and_traffic, report_type_is_allowed_for_connection, report_options_are_supported,
}
use essentials_merchant.Marketplace.Connections.{
  transport_mode_is_consistent, live_secret_reference_is_configured,
}
use essentials_merchant.Marketplace.Queue.{first}

-- The value of AMAZON_STAGING_APPROVAL.
pub record AmazonStagingApproval : Type 0 where
  pub seller_sha256 : String
  pub region : String
  pub marketplace_id : String

-- What the worker reads beside the tables of the store: the environment, the digest of sha2, the
-- decimal text of a number, the module switch of the pilot (none when its query fails), whether the
-- queries on the sequence of runs answer, and the approved contexts (none when that query fails).
pub record Surroundings : Type 0 where
  pub approval : Option AmazonStagingApproval
  pub secret : String → Option Value
  pub sha256 : String → String
  pub to_string : ℕ → String
  pub pilot_enabled : Option Bool
  pub sequence_answers : Bool
  pub context_is_approved : String → Option Bool

-- A byte of lower-case hexadecimal.
abbrev pub is_lower_hex : Char → Bool
is_lower_hex c = is_ascii_digit c || (leb b'a' (code c) && leb (code c) b'f')

abbrev pub approves :
    Surroundings → String → String → String → String → Option AmazonStagingApproval → Bool
approves s seller_id region secret_ref marketplace_id none = false
approves s seller_id region secret_ref marketplace_id (some a) =
    live_secret_reference_is_configured s.secret secret_ref
    && byte_len a.seller_sha256 == 64
    && all_chars is_lower_hex a.seller_sha256
    && str_eq a.seller_sha256 (s.sha256 seller_id)
    && str_eq a.region region
    && str_eq a.marketplace_id marketplace_id

abbrev pub or_false : Option Bool → Bool
or_false none = false
or_false (some b) = b

abbrev pub or_true : Option Bool → Bool
or_true none = true
or_true (some b) = b

-- `amazon_context_sha256`
abbrev pub context_sha256 : Surroundings → String → String → String → String
context_sha256 s seller_id region marketplace_id = s.sha256 (
    append_text "mantle-amazon-read-only-v1\0" (
      append_text seller_id
        (append_text "\0" (append_text region (append_text "\0" marketplace_id)))))

unfoldable pub staging_context_is_approved : Surroundings → String → String → String → String → Bool
staging_context_is_approved s seller_id region secret_ref marketplace_id =
    if approves s seller_id region secret_ref marketplace_id s.approval
    then true
    else if not (str_eq secret_ref "pilot_seller")
    then false
    else or_false (s.context_is_approved (context_sha256 s seller_id region marketplace_id))

abbrev pub day : ℕ
day = 86400000000

-- `date_naive`, as the number of days since 1970.
abbrev pub date : ℕ → ℕ
date t = t / day

-- The number of days of a period that does not end before it starts.
abbrev pub period_days : ℕ → ℕ → ℕ
period_days start end = date end - date start + 1

abbrev pub day_child : Value
day_child =
    object
      (member "asinGranularity" (text "CHILD") (member "dateGranularity" (text "DAY") no_members))

abbrev pub is_short_completed : ℕ → String → Value → ℕ → ℕ → Bool
is_short_completed now report_type options start end =
    str_eq report_type sales_and_traffic
    && ltb start end
    && ltb (date end) (date now)
    && leb 1 (period_days start end)
    && leb (period_days start end) 7
    && value_eq options day_child

unfoldable pub pilot_period_is_safe : ℕ → String → Option ℕ → Option ℕ → Value → Bool
pilot_period_is_safe now report_type (some start) (some end) options =
    is_short_completed now report_type options start end
pilot_period_is_safe now report_type _ _ options = false

abbrev pub is_none {ℓ} : {A : Type ℓ} → Option A → Bool
is_none none = true
is_none (some a) = false

unfoldable pub pilot_live_run_is_safe : Surroundings → ℕ → ClaimedReportRun → Bool
unfolding staging_context_is_approved pilot_period_is_safe
pilot_live_run_is_safe s now run =
    str_eq run.order.trigger_source "manual"
    && is_none run.order.schedule_id
    && staging_context_is_approved s run.seller_id run.region run.secret_ref
        run.order.marketplace_id
    && pilot_period_is_safe now run.order.report_type run.order.data_start_time
        run.order.data_end_time run.order.report_options

-- $2 IS NULL OR id <> $2
abbrev pub is_other : Option ℕ → ℕ → Bool
is_other none id = true
is_other (some excluded) id = not (id == excluded)

abbrev pub is_other_active : ClaimedReportRun → Option ℕ → AmazonReportRun → Bool
is_other_active run excluded r =
    r.order.connection_id == run.order.connection_id && is_other excluded r.id && is_open r.status

abbrev pub is_succeeded : RunStatus → Bool
is_succeeded RunStatus.succeeded = true
is_succeeded _ = false

abbrev pub is_comparable : ClaimedReportRun → MetricSnapshot → Bool
is_comparable run p =
    p.connection_id == run.order.connection_id
    && str_eq p.marketplace_id run.order.marketplace_id
    && str_eq p.report_type run.order.report_type
    && str_eq p.parser_version "sales-traffic-json-v2"
    && str_eq p.granularity "day_child"

-- The join of the comparable snapshots with their succeeded runs.
abbrev pub prior_runs :
    List AmazonReportRun → List MetricSnapshot → List (AmazonReportRun × MetricSnapshot)
prior_runs rs [] = []
prior_runs rs (p ∷ ps) =
    let rest = prior_runs rs ps in
    elim (find? (λ r. is_run p.run_id r && is_succeeded r.status) rs) [
      | none ↦ rest
      | some r ↦ (r, p) ∷ rest
    ]

-- ORDER BY completed_at DESC, where NULL stands first.
abbrev pub completed_after : Option ℕ → Option ℕ → Bool
completed_after none b = true
completed_after (some a) none = false
completed_after (some a) (some b) = leb b a

abbrev pub prior_first : AmazonReportRun × MetricSnapshot → AmazonReportRun × MetricSnapshot → Bool
prior_first a b = completed_after a.0.completed_at b.0.completed_at

pub prior_snapshot : MarketplaceDb → ClaimedReportRun → Option (AmazonReportRun × MetricSnapshot)
prior_snapshot db run =
    first (sort_by prior_first (prior_runs db.runs (select (is_comparable run) db.snapshots)))

abbrev pub has_key_for : Surroundings → String → Option ℕ → Option ℕ → Bool
has_key_for s key (some start) (some end) =
    str_eq key (
      append_text "sales-traffic:day_child:"
        (append_text (s.to_string (period_days start end)) "d"))
has_key_for s key _ _ = false

-- None when a query fails. It is asked only of runs that `pilot_live_run_is_safe` lets pass.
unfoldable pub pilot_live_sequence_is_safe :
    Surroundings → MarketplaceDb → ClaimedReportRun → Option ℕ → Option Bool
unfolding prior_snapshot
pilot_live_sequence_is_safe s db run excluded =
    if not s.sequence_answers
    then none
    else if not (count_where (is_other_active run excluded) db.runs == 0)
    then some false
    else elim (prior_snapshot db run) [
      | none ↦ some true
      | some (r, p) ↦
          some (has_key_for s p.comparability_key run.order.data_start_time run.order.data_end_time)
    ]

abbrev pub connection_of : ℕ → ClaimedReportRun → AmazonConnection
connection_of now run = record {
  id = run.order.connection_id;
  seller_id = run.seller_id;
  region = run.region;
  secret_ref = run.secret_ref;
  granted_roles = run.granted_roles;
  mode = run.mode;
  enabled = true;
  created_at = now;
}

unfoldable pub is_live_gated : Surroundings → MarketplaceDb → ℕ → ClaimedReportRun → Bool
unfolding pilot_live_run_is_safe pilot_live_sequence_is_safe
is_live_gated s db now run =
    or_true s.pilot_enabled
    && str_eq run.mode "live"
    && (not (pilot_live_run_is_safe s now run)
        || not (or_false (pilot_live_sequence_is_safe s db run (some run.id))))

-- The code and the message of the first check that fails.
unfoldable pub refusal :
    Surroundings → MarketplaceDb → ℕ → ClaimedReportRun → Option (String × String)
unfolding is_live_gated
refusal s db now run =
    if not (transport_mode_is_consistent run.mode run.secret_ref)
    then some
        ("transport_mode_mismatch", "Amazon connection mode and transport selector do not match")
    else if is_blank run.seller_id
    then some ("seller_context_missing", "Amazon seller context is required")
    else if is_live_gated s db now run
    then some (
      "pilot_live_gate_rejected",
      "Live pilot acquisition must be one manual Sales & Traffic report for a short completed period",
    )
    else if not
        (report_type_is_allowed_for_connection (connection_of now run) run.order.report_type)
    then some (
      "required_role_missing",
      "The configured seller connection does not grant the required report role",
    )
    else if not (report_options_are_supported run.order.report_type run.order.report_options)
    then some
        ("unsupported_options", "The requested options are not allowlisted for this report type")
    else none
