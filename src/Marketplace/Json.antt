-- ===== src/Marketplace/Json.antt =====
-- `serde_json::Value` as the marketplace store uses it. An object keeps its members by key, as the
-- map of serde_json does; a number stands for its digits.
use essentials_merchant.Base.{
  String, str_eq, Bool, true, false, ◌&&◌, Option, none, some, if◌then◌else◌,
}

mutual
  pub data Value : Type 0 where
    null : Value
    boolean : Bool → Value
    number : String → Value
    text : String → Value
    array : Elements → Value
    object : Members → Value

  pub data Elements : Type 0 where
    no_elements : Elements
    element : Value → Elements → Elements

  pub data Members : Type 0 where
    no_members : Members
    member : String → Value → Members → Members

abbrev pub bool_eq : Bool → Bool → Bool
bool_eq true true = true
bool_eq false false = true
bool_eq _ _ = false

-- Equality of values, for `=` of jsonb and `==` of serde_json.
unfoldable mutual
  pub value_eq : Value → Value → Bool
  value_eq null null = true
  value_eq (boolean a) (boolean b) = bool_eq a b
  value_eq (number a) (number b) = str_eq a b
  value_eq (text a) (text b) = str_eq a b
  value_eq (array a) (array b) = elements_eq a b
  value_eq (object a) (object b) = members_eq a b
  value_eq _ _ = false

  pub elements_eq : Elements → Elements → Bool
  elements_eq no_elements no_elements = true
  elements_eq (element v vs) (element w ws) = value_eq v w && elements_eq vs ws
  elements_eq _ _ = false

  pub members_eq : Members → Members → Bool
  members_eq no_members no_members = true
  members_eq (member k v vs) (member l w ws) = str_eq k l && value_eq v w && members_eq vs ws
  members_eq _ _ = false

abbrev pub as_object : Value → Option Members
as_object (object ms) = some ms
as_object _ = none

abbrev pub as_str : Value → Option String
as_str (text s) = some s
as_str _ = none

abbrev pub has_no_members : Members → Bool
has_no_members no_members = true
has_no_members (member k v vs) = false

-- `iter().all` over the members.
abbrev pub all_members : (String → Value → Bool) → Members → Bool
all_members p no_members = true
all_members p (member k v vs) = p k v && all_members p vs

-- `get(field)` of an object.
abbrev pub get_member : String → Members → Option Value
get_member key no_members = none
get_member key (member k v vs) = if str_eq k key then some v else get_member key vs
