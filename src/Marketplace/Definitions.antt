-- ===== src/Marketplace/Definitions.antt =====
-- The report types that the store knows, and what a connection and the options of a request must
-- have for them.
use essentials_merchant.Base.{
  String, str_eq, Bool, true, false, not, ◌&&◌, Option, none, some, List, [], ◌∷◌, if◌then◌else◌,
  find?, any, starts_with,
}
use essentials_merchant.Marketplace.{AmazonConnection}
use essentials_merchant.Marketplace.Json.{
  Value, Members, as_object, as_str, has_no_members, all_members,
}

abbrev pub sales_and_traffic : String
sales_and_traffic = "GET_SALES_AND_TRAFFIC_REPORT"

abbrev pub inventory_planning : String
inventory_planning = "GET_FBA_INVENTORY_PLANNING_DATA"

abbrev pub fba_returns : String
fba_returns = "GET_FBA_FULFILLMENT_CUSTOMER_RETURNS_DATA"

abbrev pub settlement_v2 : String
settlement_v2 = "GET_V2_SETTLEMENT_REPORT_DATA_FLAT_FILE_V2"

pub record ReportDefinition : Type 0 where
  pub report_type : String
  pub required_roles : List String
  pub regions : List String
  pub format : String
  pub parser_version : Option String
  pub supported_options : List String
  pub pii_classification : String
  pub analysis_capable : Bool
  pub requires_rdt : Bool
  pub schedule_supported : Bool
  pub deprecation_status : String

unfoldable pub report_definitions : List ReportDefinition
report_definitions =
    record {
      report_type = sales_and_traffic;
      required_roles = "Brand Analytics" ∷ [];
      regions = "na" ∷ "eu" ∷ "fe" ∷ [];
      format = "json";
      parser_version = some "sales-traffic-json-v2";
      supported_options = "dateGranularity" ∷ "asinGranularity" ∷ [];
      pii_classification = "aggregated";
      analysis_capable = true;
      requires_rdt = false;
      schedule_supported = true;
      deprecation_status = "active";
    }
    ∷ record {
      report_type = inventory_planning;
      required_roles = "Amazon Fulfillment" ∷ [];
      regions = "na" ∷ "eu" ∷ "fe" ∷ [];
      format = "tsv";
      parser_version = some "inventory-planning-tsv-v1";
      supported_options = [];
      pii_classification = "aggregated";
      analysis_capable = true;
      requires_rdt = false;
      schedule_supported = false;
      deprecation_status = "active";
    }
    ∷ record {
      report_type = fba_returns;
      required_roles = "Pricing" ∷ "Amazon Fulfillment" ∷ [];
      regions = "na" ∷ "eu" ∷ "fe" ∷ [];
      format = "tsv";
      parser_version = none;
      supported_options = [];
      pii_classification = "potential_pii";
      analysis_capable = false;
      requires_rdt = false;
      schedule_supported = false;
      deprecation_status = "active_raw_only";
    }
    ∷ record {
      report_type = settlement_v2;
      required_roles = "Finance and Accounting" ∷ [];
      regions = "na" ∷ "eu" ∷ "fe" ∷ [];
      format = "tsv";
      parser_version = none;
      supported_options = [];
      pii_classification = "financial_pseudonymous";
      analysis_capable = false;
      requires_rdt = false;
      schedule_supported = false;
      deprecation_status = "active_raw_only";
    }
    ∷ []

unfoldable pub report_definition : String → Option ReportDefinition
report_definition report_type = find? (λ d. str_eq d.report_type report_type) report_definitions

abbrev pub contains : List String → String → Bool
contains texts s = any (λ t. str_eq t s) texts

unfoldable pub report_type_is_allowed_for_connection : AmazonConnection → String → Bool
report_type_is_allowed_for_connection c report_type = elim (report_definition report_type) [
  | none ↦ str_eq c.mode "fixture" && starts_with report_type "GET_"
  | some d ↦
      contains d.regions c.region && any (λ role. contains c.granted_roles role) d.required_roles
]

-- The two options of the sales report.
pub is_granularity : String → String → Bool
is_granularity name value =
    if str_eq name "dateGranularity"
    then contains ("DAY" ∷ "WEEK" ∷ "MONTH" ∷ []) value
    else if str_eq name "asinGranularity"
    then contains ("PARENT" ∷ "CHILD" ∷ "SKU" ∷ []) value
    else false

abbrev pub is_sales_option : String → Value → Bool
is_sales_option name value = elim (as_str value) [ none ↦ false | some s ↦ is_granularity name s ]

abbrev pub options_of : ReportDefinition → String → Members → Bool
options_of d report_type ms =
    if not (all_members (λ name value. contains d.supported_options name) ms)
    then false
    else if not (str_eq report_type sales_and_traffic)
    then has_no_members ms
    else all_members is_sales_option ms

unfoldable pub report_options_are_supported : String → Value → Bool
report_options_are_supported report_type options = elim (report_definition report_type) [
  | none ↦ elim (as_object options) [ none ↦ false | some ms ↦ has_no_members ms ]
  | some d ↦ elim (as_object options) [ none ↦ false | some ms ↦ options_of d report_type ms ]
]
