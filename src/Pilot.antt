-- ===== src/Pilot.antt =====
-- The filter of requests while the read-only pilot is enabled, backend/crates/server/src/pilot.rs.
pub mod Requests
mod Tests
use Prim.Native.Char.{Char, code}
use essentials_merchant.Base.{
  ℕ, String, str_eq, Bool, true, false, not, ◌&&◌, ◌||◌, Option, none, some, List, [], ◌∷◌,
  if◌then◌else◌, ◌==◌, any, is_empty,
}

-- Any other method is `other`.
pub data Method : Type 0 where
  get head options post other : Method

abbrev pub is_slash : Char → Bool
is_slash c = code c == b'/'

pub trim_start_slashes : String → String
trim_start_slashes String.[] = ""
trim_start_slashes (String.◌∷◌ c s) =
    let rest = trim_start_slashes s in if is_slash c then rest else String.◌∷◌ c s

-- `trim_end_matches('/')`
unfoldable pub trim_end_slashes : String → String
trim_end_slashes String.[] = ""
trim_end_slashes (String.◌∷◌ c s) =
    let rest = trim_end_slashes s in if is_slash c && is_empty rest then "" else String.◌∷◌ c rest

abbrev pub put_first : Char → List String → List String
put_first c [] = String.◌∷◌ c "" ∷ []
put_first c (s ∷ ss) = String.◌∷◌ c s ∷ ss

-- `split('/')`, which has one part more than the text has slashes.
pub split : String → List String
split String.[] = "" ∷ []
split (String.◌∷◌ c s) = let rest = split s in if is_slash c then "" ∷ rest else put_first c rest

pub segments : String → List String
unfolding split trim_start_slashes
segments path = split (trim_end_slashes (trim_start_slashes path))

-- A pattern of segments, `none` for a wildcard.
abbrev pub is_part : Option String → String → Bool
is_part none s = true
is_part (some t) s = str_eq s t

abbrev pub matches : List (Option String) → List String → Bool
matches [] [] = true
matches [] (s ∷ ss) = false
matches (p ∷ ps) [] = false
matches (p ∷ ps) (s ∷ ss) = is_part p s && matches ps ss

abbrev pub is_listed : List String → String → Bool
is_listed paths path = any (λ p. str_eq path p) paths

abbrev pub raw_run : List (Option String)
raw_run = some "api" ∷ some "marketplace" ∷ some "runs" ∷ none ∷ some "raw" ∷ []

abbrev pub module_health : List (Option String)
module_health = some "api" ∷ some "modules" ∷ none ∷ some "health" ∷ []

abbrev pub connection_runs : List (Option String)
connection_runs = some "api" ∷ some "marketplace" ∷ some "connections" ∷ none ∷ some "runs" ∷ []

abbrev pub connection_analyses : List (Option String)
connection_analyses =
    some "api" ∷ some "marketplace" ∷ some "connections" ∷ none ∷ some "analyses" ∷ []

abbrev pub weekly_strategy : List (Option String)
weekly_strategy = some "api" ∷ some "marketplace" ∷ some "strategy" ∷ some "weekly" ∷ []

abbrev pub one_run : List (Option String)
one_run = some "api" ∷ some "marketplace" ∷ some "runs" ∷ none ∷ []

abbrev pub analysis_export : List (Option String)
analysis_export = some "api" ∷ some "marketplace" ∷ some "analyses" ∷ none ∷ some "export" ∷ []

abbrev pub posted_paths : List String
posted_paths =
    "/api/auth/login" ∷ "/api/auth/pilot-session" ∷ "/api/marketplace/connections"
    ∷ "/api/marketplace/demo" ∷ "/api/marketplace/imports" ∷ "/api/marketplace/imports/preview"
    ∷ "/api/marketplace/imports/ads" ∷ "/api/marketplace/imports/ads/preview"
    ∷ "/api/marketplace/product-mappings" ∷ "/api/marketplace/strategy/knowledge"
    ∷ "/api/pilot/provider-secrets/openai" ∷ "/api/pilot/provider-secrets/amazon" ∷ []

abbrev pub anonymous_read_paths : List String
anonymous_read_paths =
    "/api/auth/me" ∷ "/api/modules" ∷ "/api/pilot/status" ∷ "/api/pilot/provider-secrets/status"
    ∷ "/api/marketplace" ∷ "/api/marketplace/product-mappings" ∷ "/api/marketplace/strategy/status"
    ∷ "/api/marketplace/strategy/knowledge" ∷ "/api/marketplace/strategy/weekly" ∷ []

abbrev pub anonymous_posted_paths : List String
anonymous_posted_paths =
    "/api/marketplace/connections" ∷ "/api/marketplace/demo" ∷ "/api/marketplace/imports"
    ∷ "/api/marketplace/imports/preview" ∷ "/api/marketplace/imports/ads"
    ∷ "/api/marketplace/imports/ads/preview" ∷ "/api/marketplace/product-mappings"
    ∷ "/api/marketplace/strategy/knowledge" ∷ "/api/marketplace/strategy/weekly"
    ∷ "/api/pilot/provider-secrets/openai" ∷ "/api/pilot/provider-secrets/amazon" ∷ []

-- The two reads that the pilot refuses.
pub is_withheld : List String → Bool
is_withheld parts = matches raw_run parts || matches module_health parts

pub may_post : String → List String → Bool
may_post path parts =
    is_listed posted_paths path
    || matches connection_runs parts
    || matches connection_analyses parts
    || matches weekly_strategy parts

unfoldable pub pilot_request_allowed : Method → String → Bool
unfolding is_withheld may_post segments
pilot_request_allowed Method.get path = not (is_withheld (segments path))
pilot_request_allowed Method.head path = true
pilot_request_allowed Method.options path = true
pilot_request_allowed Method.post path = may_post path (segments path)
pilot_request_allowed Method.other path = false

pub may_read_anonymously : String → List String → Bool
may_read_anonymously path parts =
    is_listed anonymous_read_paths path || matches one_run parts || matches analysis_export parts

pub may_post_anonymously : String → List String → Bool
may_post_anonymously path parts =
    is_listed anonymous_posted_paths path
    || matches connection_runs parts
    || matches connection_analyses parts

abbrev pub anonymous_at : Method → String → Bool
anonymous_at Method.get path = may_read_anonymously path (segments path)
anonymous_at Method.post path = may_post_anonymously path (segments path)
anonymous_at _ path = false

unfoldable pub anonymous_pilot_request_allowed : Method → String → Bool
unfolding may_read_anonymously may_post_anonymously segments
anonymous_pilot_request_allowed method path = anonymous_at method (trim_end_slashes path)

pub data Decision : Type 0 where
  next conflict : Decision

abbrev pub or_true : Option Bool → Bool
or_true none = true
or_true (some b) = b

-- `enforce_read_only`; `enabled` is the answer of `is_enabled`, none when the query fails.
unfoldable pub enforce_read_only : Option Bool → Method → String → Decision
unfolding pilot_request_allowed
enforce_read_only enabled method path =
    if or_true enabled && not (pilot_request_allowed method path)
    then Decision.conflict
    else Decision.next
