-- ===== src/Marketplace/Connections.antt =====
-- Connections to Amazon and their schedules: validation, the row that an input leaves, and what of
-- a connection is shown. `secret` reads a secret of the environment: `std::env::var` and serde_json.
use Prim.Native.Char.{Char, code}
use Prim.Native.String.{◌++◌ as append_text}
use essentials_merchant.Base.{
  ℕ, zero, suc, ◌-◌, String, str_eq, Bool, true, false, not, ◌&&◌, ◌||◌, Option, none, some, List,
  [], ◌∷◌, map, if◌then◌else◌, ◌==◌, leb, find?, any, all, select, update_where, sort_by, Result,
  ok, err, ◌>>=◌, raise_if, ◌>>◌, map_chars, count_chars, is_ascii_alphanumeric, is_blank,
  starts_with,
}
use essentials_merchant.Marketplace.{
  MarketplaceDb, AmazonConnection, AmazonMarketplace, AmazonReportSchedule, StoreError, protocol,
  foreign_key_violation, check_violation,
}
use essentials_merchant.Marketplace.Json.{Value, as_object, as_str, get_member}
use essentials_merchant.Marketplace.Definitions.{contains}
use essentials_merchant.Marketplace.Queue.{is_connection, text_leb}

pub record AmazonConnectionInput : Type 0 where
  pub seller_id : String
  pub region : String
  pub secret_ref : String
  pub granted_roles : List String
  pub marketplace_ids : List String
  pub mode : String
  pub enabled : Bool

-- ("fixture", prefix "fixture:") or ("live", another).
unfoldable pub transport_mode_is_consistent : String → String → Bool
transport_mode_is_consistent mode secret_ref =
    let fixture = starts_with secret_ref "fixture:" in
    (str_eq mode "fixture" && fixture) || (str_eq mode "live" && not fixture)

abbrev pub is_nil : List String → Bool
is_nil [] = true
is_nil (x ∷ xs) = false

abbrev pub lacks_field : AmazonConnectionInput → Bool
lacks_field i =
    is_blank i.seller_id
    || is_blank i.secret_ref
    || is_nil i.marketplace_ids
    || not (contains ("na" ∷ "eu" ∷ "fe" ∷ []) i.region)
    || not (contains ("live" ∷ "fixture" ∷ []) i.mode)

unfoldable pub validate_connection_input : AmazonConnectionInput → Result StoreError (Unit {0})
unfolding transport_mode_is_consistent
validate_connection_input i = do
  raise_if (lacks_field i)
      (protocol "seller, region, secret reference, mode, and a marketplace are required")
  raise_if (not (transport_mode_is_consistent i.mode i.secret_ref)) (
      protocol
        "fixture connections require a fixture: secret reference, and live connections must not use one")
  raise_if (any is_blank i.marketplace_ids) (protocol "marketplace identifiers cannot be empty")

-- UNIQUE (seller_id, region, secret_ref)
abbrev pub has_context : AmazonConnectionInput → AmazonConnection → Bool
has_context i c =
    str_eq c.seller_id i.seller_id && str_eq c.region i.region && str_eq c.secret_ref i.secret_ref

abbrev pub with_input : AmazonConnectionInput → AmazonConnection → AmazonConnection
with_input i c = record c { granted_roles = i.granted_roles; mode = i.mode; enabled = i.enabled }

abbrev pub new_connection : ℕ → ℕ → AmazonConnectionInput → AmazonConnection
new_connection now new_id i = record {
  id = new_id;
  seller_id = i.seller_id;
  region = i.region;
  secret_ref = i.secret_ref;
  granted_roles = i.granted_roles;
  mode = i.mode;
  enabled = i.enabled;
  created_at = now;
}

abbrev pub is_marketplace : ℕ → String → AmazonMarketplace → Bool
is_marketplace connection_id marketplace_id m =
    m.connection_id == connection_id && str_eq m.marketplace_id marketplace_id

-- The loop over the marketplaces, with ON CONFLICT DO NOTHING.
pub add_marketplaces : ℕ → List String → List AmazonMarketplace → List AmazonMarketplace
add_marketplaces connection_id [] ms = ms
add_marketplaces connection_id (id ∷ ids) ms = add_marketplaces connection_id ids (
    if any (is_marketplace connection_id id) ms
    then ms
    else record { connection_id = connection_id; marketplace_id = id; enabled = true } ∷ ms)

-- The connection as the transaction leaves it, and the database.
unfoldable pub upsert_connection :
    MarketplaceDb
    → ℕ
    → ℕ
    → AmazonConnectionInput
    → Result StoreError (AmazonConnection × MarketplaceDb)
unfolding validate_connection_input add_marketplaces
upsert_connection db now new_id i = do
  _ ← validate_connection_input i
  elim (find? (has_context i) db.connections) [
    | none ↦ ok (
      new_connection now new_id i,
      record db {
        connections = new_connection now new_id i ∷ db.connections;
        marketplaces = add_marketplaces new_id i.marketplace_ids db.marketplaces;
      },
    )
    | some c ↦ ok (
      with_input i c,
      record db {
        connections = update_where (is_connection c.id) (with_input i) db.connections;
        marketplaces = add_marketplaces c.id i.marketplace_ids db.marketplaces;
      },
    )
  ]

abbrev pub demo_input : AmazonConnectionInput
demo_input = record {
  seller_id = "DEMO-SELLER";
  region = "eu";
  secret_ref = "fixture:demo";
  granted_roles = "Brand Analytics" ∷ "Amazon Fulfillment" ∷ [];
  marketplace_ids = "A1PA6795UKMFR9" ∷ [];
  mode = "fixture";
  enabled = true;
}

unfoldable pub create_demo_connection :
    MarketplaceDb → ℕ → ℕ → Result StoreError (AmazonConnection × MarketplaceDb)
unfolding upsert_connection
create_demo_connection db now new_id = upsert_connection db now new_id demo_input

unfoldable pub get_connection : MarketplaceDb → ℕ → Option AmazonConnection
get_connection db id = find? (is_connection id) db.connections

unfoldable pub list_marketplace_ids : MarketplaceDb → ℕ → List String
list_marketplace_ids db id = sort_by text_leb (
    map (λ (m : AmazonMarketplace). m.marketplace_id)
      (select (λ m. m.connection_id == id && m.enabled) db.marketplaces))

unfoldable pub marketplace_exists : MarketplaceDb → ℕ → String → Bool
marketplace_exists db id marketplace_id =
    any (λ m. is_marketplace id marketplace_id m && m.enabled) db.marketplaces

-- The character under `c` where the two alphabets are laid below one another.
abbrev pub under : Char → String → String → Char
under c String.[] upper = c
under c (String.◌∷◌ l ls) String.[] = c
under c (String.◌∷◌ l ls) (String.◌∷◌ u us) = if code c == code l then u else under c ls us

abbrev pub to_ascii_uppercase : Char → Char
to_ascii_uppercase c = under c "abcdefghijklmnopqrstuvwxyz" "ABCDEFGHIJKLMNOPQRSTUVWXYZ"

abbrev environment_char : Char → Char
environment_char c = if is_ascii_alphanumeric c then to_ascii_uppercase c else "_"

unfoldable pub secret_environment_key : String → String
secret_environment_key secret_ref =
    append_text "AMAZON_SECRET_" (map_chars environment_char secret_ref)

abbrev pub has_text : Value → String → Bool
has_text v field = elim (as_object v) [
  | none ↦ false
  | some ms ↦ elim (get_member field ms) [
    | none ↦ false
    | some w ↦ elim (as_str w) [ none ↦ false | some s ↦ not (is_blank s) ]
  ]
]

unfoldable pub live_secret_reference_is_configured : (String → Option Value) → String → Bool
unfolding secret_environment_key
live_secret_reference_is_configured secret secret_ref =
    elim (secret (secret_environment_key secret_ref)) [
      | none ↦ false
      | some v ↦ all (has_text v) ("refresh_token" ∷ "client_id" ∷ "client_secret" ∷ [])
    ]

abbrev pub drop_chars : ℕ → String → String
drop_chars n String.[] = ""
drop_chars n (String.◌∷◌ c s) = elim n [ zero ↦ String.◌∷◌ c s | suc m ↦ drop_chars m s ]

-- The last four characters, which `rev().take(4)` and a second `rev` give.
unfoldable pub redact_identifier : String → String
redact_identifier identifier =
    if leb (count_chars identifier) 4
    then "****"
    else append_text "****" (drop_chars (count_chars identifier - 4) identifier)

pub record AmazonReportScheduleInput : Type 0 where
  pub marketplace_id : String
  pub report_type : String
  pub report_options : Value
  pub interval_seconds : ℕ
  pub enabled : Bool

abbrev pub is_schedule_of : ℕ → AmazonReportScheduleInput → AmazonReportSchedule → Bool
is_schedule_of id i s =
    s.connection_id == id
    && str_eq s.marketplace_id i.marketplace_id
    && str_eq s.report_type i.report_type

-- A schedule that the input turns on is due at once.
abbrev pub rescheduled : ℕ → AmazonReportScheduleInput → AmazonReportSchedule → AmazonReportSchedule
rescheduled now i s = record s {
  report_options = i.report_options;
  interval_seconds = i.interval_seconds;
  enabled = i.enabled;
  next_run_at = if i.enabled && not s.enabled then now else s.next_run_at;
}

abbrev pub new_schedule : ℕ → ℕ → ℕ → AmazonReportScheduleInput → AmazonReportSchedule
new_schedule now new_id connection_id i = record {
  id = new_id;
  connection_id = connection_id;
  marketplace_id = i.marketplace_id;
  report_type = i.report_type;
  report_options = i.report_options;
  interval_seconds = i.interval_seconds;
  enabled = i.enabled;
  next_run_at = now;
  last_enqueued_at = none;
  created_at = now;
}

-- CHECK (interval_seconds BETWEEN 900 AND 2678400)
abbrev pub is_interval : ℕ → Bool
is_interval n = leb 900 n && leb n 2678400

unfoldable pub upsert_schedule :
    MarketplaceDb → ℕ → ℕ → ℕ → AmazonReportScheduleInput → Result StoreError MarketplaceDb
upsert_schedule db now new_id connection_id i =
    if not (is_interval i.interval_seconds)
    then err check_violation
    else if any (is_schedule_of connection_id i) db.schedules
    then ok (record db {
      schedules = update_where (is_schedule_of connection_id i) (rescheduled now i) db.schedules;
    })
    else if any (is_connection connection_id) db.connections
    then ok (record db { schedules = new_schedule now new_id connection_id i ∷ db.schedules })
    else err foreign_key_violation
