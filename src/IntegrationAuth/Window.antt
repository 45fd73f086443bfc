-- ===== src/IntegrationAuth/Window.antt =====
-- The window of accepted timestamps, and who may pass `check_request`.
use essentials_merchant.Base.{
  ℕ, ℤ, pos, negsuc, ◌+◌, ◌/◌, ◌^◌, ◌≤◌, ◌<◌, String, ◌≡◌, inl, inr, true, false, some, arith,
  Result, ok, ◌>>=◌, or_raise, Result-cases, Option-cases,
}
use essentials_merchant.IntegrationAuth.Integers.{age_i64, exceeds, parse_i64}
use essentials_merchant.IntegrationAuth.{
  Crates, IntegrationAuth, IntegrationAuthError, IntegrationKey, Request, Accepted, second,
  check_request, header, is_nonce_valid, key, verify_signature, malformed,
}

-- |a - t| ≤ limit, over the integers.
abbrev pub IsWithin : ℕ → ℕ → ℤ → Type 0
IsWithin limit now (pos t) = (now ≤ t + limit) × (t ≤ now + limit)
IsWithin limit now (negsuc n) = now + n + 1 ≤ limit

-- chrono represents no second before the year -300,000 (documented: years down to -262,143).
abbrev pub IsBounded : Crates → Type 0
IsBounded crates = (n : ℕ) → crates.is_representable (negsuc n) ≡ true → n < 10 ^ 13

-- The wrap-around can hide a difference only for a timestamp that chrono does not represent.
within_of_age :
    (limit now n : ℕ)
    → limit ≤ 900
    → now < 2 ^ 62
    → n < 10 ^ 13
    → exceeds (age_i64 now (negsuc n)) limit ≡ false
    → now + n + 1 ≤ limit
unfolding age_i64 exceeds
within_of_age limit now n small early bounded e = ground arith

within_of_age_pos :
    (limit now t : ℕ)
    → exceeds (age_i64 now (pos t)) limit ≡ false
    → (now ≤ t + limit) × (t ≤ now + limit)
unfolding age_i64 exceeds
within_of_age_pos limit now t e = ground arith

-- The timestamp that a request states.
abbrev pub stamp_of : Request → Result IntegrationAuthError ℤ
stamp_of r = do sent ← header r "x-essentials-timestamp"; or_raise (parse_i64 sent) malformed

-- What has been checked of a request that passes.
pub record IsChecked (crates : Crates) (auth : IntegrationAuth) (now : ℕ) (r : Request)
    (a : Accepted) : Type 0 where
  pub key_named : header r "x-essentials-key-id" ≡ ok a.key_id
  pub nonce_named : header r "x-essentials-nonce" ≡ ok a.nonce
  pub nonce_valid : is_nonce_valid a.nonce ≡ true
  pub in_window : exceeds (age_i64 (now / second) a.timestamp) auth.max_clock_skew_seconds ≡ false
  pub stamped : stamp_of r ≡ ok a.timestamp
  pub represented : crates.is_representable a.timestamp ≡ true

pub check_request-IsChecked :
    (crates : Crates) (auth : IntegrationAuth) (now : ℕ) (r : Request) (a : Accepted)
    → check_request crates auth now r ≡ ok a
    → IsChecked crates auth now r a
unfolding check_request
check_request-IsChecked crates auth now r a e = ground arith

-- The request carries a code that verifies under the key that it names.
abbrev pub IsSigned : Crates → IntegrationAuth → Request → Accepted → Type 0
IsSigned crates auth r a =
    (k : IntegrationKey) × (signature : String) × (key auth a.key_id ≡ some k)
    × (header r "x-essentials-signature" ≡ ok signature)
    × (verify_signature crates k.secret r a.timestamp a.nonce signature ≡ ok tt)

pub check_request-IsSigned :
    (crates : Crates) (auth : IntegrationAuth) (now : ℕ) (r : Request) (a : Accepted)
    → check_request crates auth now r ≡ ok a
    → IsSigned crates auth r a
unfolding check_request
check_request-IsSigned crates auth now r a e =
    elim (Result-cases (header r "x-essentials-signature")) [
      | inl (signature, sent) ↦ elim (Option-cases (key auth a.key_id)) [
        | inl missing ↦ absurd (ground (arith, missing, sent, e))
        | inr (k, known) ↦ (k, signature, known, sent, ground (arith, known, sent, e))
      ]
      | inr (x, refused) ↦ absurd (ground (arith, refused, e))
    ]

-- A request that passes names the current or the previous key, carries a code that verifies under
-- it over the request's method, path, timestamp, nonce and body, and was made within the window
-- around the clock, when chrono's range is as documented and the clock is in it.
pub check_request-authentic :
    (crates : Crates) (auth : IntegrationAuth) (now : ℕ) (r : Request) (a : Accepted)
    → IsBounded crates
    → auth.max_clock_skew_seconds ≤ 900
    → now / second < 2 ^ 62
    → check_request crates auth now r ≡ ok a
    → IsSigned crates auth r a × IsWithin auth.max_clock_skew_seconds (now / second) a.timestamp
check_request-authentic crates auth now r a bounded small early e =
    let checked = check_request-IsChecked crates auth now r a e in
    (
      check_request-IsSigned crates auth now r a e,
      within a.timestamp (checked.represented) (checked.in_window),
    )
  where
    within :
        (t : ℤ)
        → crates.is_representable t ≡ true
        → exceeds (age_i64 (now / second) t) auth.max_clock_skew_seconds ≡ false
        → IsWithin auth.max_clock_skew_seconds (now / second) t
    within (pos t) represented fresh = within_of_age_pos _ _ t fresh
    within (negsuc n) represented fresh =
        within_of_age _ _ n small early (bounded n represented) fresh
