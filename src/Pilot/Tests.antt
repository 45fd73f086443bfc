-- ===== src/Pilot/Tests.antt =====
-- Requests to the pilot.
use essentials_merchant.Base.{String, ◌≡◌, refl, true, none, some, [], ◌∷◌}
use essentials_merchant.Pilot.{
  Method, Decision, enforce_read_only, pilot_request_allowed, anonymous_pilot_request_allowed,
  segments, trim_end_slashes,
}
use essentials_merchant.Pilot.Requests.{
  is_pilot_area, enforce_read_only_area, anonymous-pilot_request_allowed,
}

abbrev runs_path : String
runs_path = "/api/marketplace/connections/7/runs"

split_path : segments "/api/modules/x/health/" ≡ "api" ∷ "modules" ∷ "x" ∷ "health" ∷ []
unfolding segments trim_end_slashes
split_path = refl

invoice_refused : enforce_read_only (some true) Method.post "/api/invoices" ≡ Decision.conflict
unfolding enforce_read_only trim_end_slashes
invoice_refused = refl

runs_pass : enforce_read_only none Method.post runs_path ≡ Decision.next
unfolding enforce_read_only trim_end_slashes
runs_pass = refl

runs_anonymous : anonymous_pilot_request_allowed Method.post runs_path ≡ true
unfolding anonymous_pilot_request_allowed trim_end_slashes
runs_anonymous = refl

runs_trimmed : trim_end_slashes runs_path ≡ runs_path
unfolding trim_end_slashes
runs_trimmed = refl

enforce_read_only_area_example : is_pilot_area (segments runs_path) ≡ true
enforce_read_only_area_example =
    enforce_read_only_area none Method.post runs_path refl refl runs_pass

anonymous-pilot_request_allowed_example : pilot_request_allowed Method.post runs_path ≡ true
anonymous-pilot_request_allowed_example =
    anonymous-pilot_request_allowed Method.post runs_path runs_trimmed runs_anonymous
