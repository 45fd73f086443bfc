-- ===== src/Pilot/Requests.antt =====
-- What the lists of the pilot let through.
use essentials_merchant.Base.{
  String, str_eq, str_eq-true, ◌≡◌, refl, sym, subst, inl, inr, Bool, true, false, not, ◌&&◌, ◌||◌,
  Option, none, some, List, [], ◌∷◌, arith, if◌then◌else◌, All, Bool-cases,
}
use essentials_merchant.Pilot.{
  Method, matches, is_listed, segments, split, trim_start_slashes, trim_end_slashes,
  connection_runs, connection_analyses, weekly_strategy, one_run, analysis_export, posted_paths,
  anonymous_read_paths, anonymous_posted_paths, is_withheld, may_post, pilot_request_allowed,
  may_read_anonymously, may_post_anonymously, anonymous_pilot_request_allowed, Decision,
  enforce_read_only, or_true,
}

-- A path of a list has what every path of the list has.
listed_holds :
    (P : String → Type 0) (paths : List String) (path : String)
    → All P paths
    → is_listed paths path ≡ true
    → P path
listed_holds P [] path a h = cc
listed_holds P (p ∷ ps) path a h = elim (Bool-cases (str_eq path p)) [
  | inl same ↦ subst P (sym (str_eq-true path p same)) a.0
  | inr other ↦ listed_holds P ps path a.1 (rw other at h)
]

-- A request that changes nothing.
abbrev pub is_safe : Method → Bool
is_safe Method.get = true
is_safe Method.head = true
is_safe Method.options = true
is_safe _ = false

-- The areas of the API in which the pilot may write.
abbrev pub is_pilot_area : List String → Bool
is_pilot_area [] = false
is_pilot_area (a ∷ []) = false
is_pilot_area (a ∷ b ∷ rest) =
    str_eq a "api" && (str_eq b "auth" || str_eq b "marketplace" || str_eq b "pilot")

posted_in_area : All (λ p. is_pilot_area (segments p) ≡ true) posted_paths
unfolding segments split trim_start_slashes trim_end_slashes
posted_in_area = (
  refl,
  (refl, (refl, (refl, (refl, (refl, (refl, (refl, (refl, (refl, (refl, (refl, tt))))))))))),
)

matches-area :
    (p : List (Option String)) (parts : List String)
    → matches (some "api" ∷ some "marketplace" ∷ p) parts ≡ true
    → is_pilot_area parts ≡ true
matches-area p [] h = cc
matches-area p (a ∷ []) h = ground arith
matches-area p (a ∷ b ∷ rest) h = ground arith

may_post-area :
    (path : String) → may_post path (segments path) ≡ true → is_pilot_area (segments path) ≡ true
unfolding may_post
may_post-area path h = elim (Bool-cases (is_listed posted_paths path)) [
  | inl listed ↦
      listed_holds (λ p. is_pilot_area (segments p) ≡ true) posted_paths path posted_in_area listed
  | inr other ↦ elim (Bool-cases (matches connection_runs (segments path))) [
    | inl runs ↦ matches-area (some "connections" ∷ none ∷ some "runs" ∷ []) (segments path) runs
    | inr no_runs ↦ elim (Bool-cases (matches connection_analyses (segments path))) [
      | inl analyses ↦
          matches-area (some "connections" ∷ none ∷ some "analyses" ∷ []) (segments path) analyses
      | inr no_analyses ↦
          matches-area (some "strategy" ∷ some "weekly" ∷ []) (segments path)
            (rw (other, no_runs, no_analyses) at h)
    ]
  ]
]

let_through :
    (on allowed : Bool)
    → on ≡ true
    → (if on && not allowed then Decision.conflict else Decision.next) ≡ Decision.next
    → allowed ≡ true
let_through on allowed h passed = ground arith

-- While the pilot is enabled, or while that cannot be found out, a request that may change data
-- passes only within the areas of login, marketplace and pilot.
pub enforce_read_only_area :
    (enabled : Option Bool) (method : Method) (path : String)
    → or_true enabled ≡ true
    → is_safe method ≡ false
    → enforce_read_only enabled method path ≡ Decision.next
    → is_pilot_area (segments path) ≡ true
unfolding enforce_read_only pilot_request_allowed
enforce_read_only_area enabled Method.get path on unsafe passed = cc
enforce_read_only_area enabled Method.head path on unsafe passed = cc
enforce_read_only_area enabled Method.options path on unsafe passed = cc
enforce_read_only_area enabled Method.post path on unsafe passed =
    may_post-area path (let_through (or_true enabled) (may_post path (segments path)) on passed)
enforce_read_only_area enabled Method.other path on unsafe passed = ground (arith, on, passed)

reads_shown : All (λ p. is_withheld (segments p) ≡ false) anonymous_read_paths
unfolding segments split trim_start_slashes trim_end_slashes is_withheld
reads_shown = (refl, (refl, (refl, (refl, (refl, (refl, (refl, (refl, (refl, tt)))))))))

posts_permitted : All (λ p. may_post p (segments p) ≡ true) anonymous_posted_paths
unfolding segments split trim_start_slashes trim_end_slashes may_post
posts_permitted =
    (refl, (refl, (refl, (refl, (refl, (refl, (refl, (refl, (refl, (refl, (refl, tt)))))))))))

run_shown : (parts : List String) → matches one_run parts ≡ true → is_withheld parts ≡ false
unfolding is_withheld
run_shown [] h = refl
run_shown (a ∷ []) h = ground arith
run_shown (a ∷ b ∷ []) h = ground arith
run_shown (a ∷ b ∷ c ∷ []) h = ground arith
run_shown (a ∷ b ∷ c ∷ e ∷ []) h = elim (Bool-cases (str_eq b "marketplace")) [
  | inl market ↦ rw (str_eq-true b "marketplace" market) (ground arith)
  | inr other ↦ ground (arith, other, h)
]
run_shown (a ∷ b ∷ c ∷ e ∷ f ∷ rest) h = ground arith

export_shown :
    (parts : List String) → matches analysis_export parts ≡ true → is_withheld parts ≡ false
unfolding is_withheld
export_shown [] h = refl
export_shown (a ∷ []) h = ground arith
export_shown (a ∷ b ∷ []) h = ground arith
export_shown (a ∷ b ∷ c ∷ []) h = ground arith
export_shown (a ∷ b ∷ c ∷ e ∷ []) h = ground arith
export_shown (a ∷ b ∷ c ∷ e ∷ f ∷ []) h = elim (Bool-cases (str_eq c "analyses")) [
  | inl analyses ↦ rw (str_eq-true c "analyses" analyses) (ground arith)
  | inr other ↦ ground (arith, other, h)
]
export_shown (a ∷ b ∷ c ∷ e ∷ f ∷ g ∷ rest) h = ground arith

read_shown :
    (path : String)
    → may_read_anonymously path (segments path) ≡ true
    → not (is_withheld (segments path)) ≡ true
unfolding may_read_anonymously
read_shown path h = elim (Bool-cases (is_listed anonymous_read_paths path)) [
  | inl listed ↦ rw (
      listed_holds (λ p. is_withheld (segments p) ≡ false) anonymous_read_paths path reads_shown
        listed)
  | inr other ↦ elim (Bool-cases (matches one_run (segments path))) [
    | inl run ↦ rw (run_shown (segments path) run)
    | inr no_run ↦ rw (export_shown (segments path) (rw (other, no_run) at h))
  ]
]

middle : (l r a w : Bool) → (r || a) ≡ true → (l || r || a || w) ≡ true
middle l r a w h = ground arith

post_permitted :
    (path : String)
    → may_post_anonymously path (segments path) ≡ true
    → may_post path (segments path) ≡ true
unfolding may_post_anonymously may_post
post_permitted path h = elim (Bool-cases (is_listed anonymous_posted_paths path)) [
  | inl listed ↦
      listed_holds (λ p. may_post p (segments p) ≡ true) anonymous_posted_paths path posts_permitted
        listed
  | inr other ↦
      middle (is_listed posted_paths path) (matches connection_runs (segments path))
        (matches connection_analyses (segments path)) (matches weekly_strategy (segments path))
        (rw other at h)
]

-- A session without a user is let through only where the pilot lets any session through, for paths
-- that do not end in a slash.
pub anonymous-pilot_request_allowed :
    (method : Method) (path : String)
    → trim_end_slashes path ≡ path
    → anonymous_pilot_request_allowed method path ≡ true
    → pilot_request_allowed method path ≡ true
unfolding anonymous_pilot_request_allowed pilot_request_allowed
anonymous-pilot_request_allowed Method.get path trimmed h = read_shown path (rw trimmed at h)
anonymous-pilot_request_allowed Method.post path trimmed h = post_permitted path (rw trimmed at h)
anonymous-pilot_request_allowed Method.head path trimmed h = cc
anonymous-pilot_request_allowed Method.options path trimmed h = cc
anonymous-pilot_request_allowed Method.other path trimmed h = cc
