-- ===== src/Marketplace/Tests.antt =====
-- Runs of the marketplace store on small databases, and the theorems at concrete inputs.
use essentials_merchant.Base.{
  ℕ, pos, min, count_where, true, ◌≡◌, refl, arith, Bool, false, any, All, length, clamp,
}
use essentials_merchant.Marketplace.Claim.{claim_due_runs}
use essentials_merchant.Marketplace.Claim.Exclusive.{is_handed, claim_due_runs-exclusive}
use essentials_merchant.Marketplace.Claim.Batch.{
  is_waiting, is_claim_of, claim_due_runs-TakesWaiting,
}
use essentials_merchant.Marketplace.Connections.{
  redact_identifier, secret_environment_key, transport_mode_is_consistent,
}
use essentials_merchant.Marketplace.Samples.{sample_db}

abbrev nothing_skipped : ℕ → Bool
nothing_skipped id = false

both_claimed : length (claim_due_runs sample_db 200 nothing_skipped (pos 10)).0 ≡ 2
unfolding claim_due_runs
both_claimed = refl

one_claimed : length (claim_due_runs sample_db 200 nothing_skipped (pos 1)).0 ≡ 1
unfolding claim_due_runs
one_claimed = refl

none_before_time : length (claim_due_runs sample_db 99 nothing_skipped (pos 10)).0 ≡ 0
unfolding claim_due_runs
none_before_time = refl

short_redacted : redact_identifier "abcd" ≡ "****"
unfolding redact_identifier
short_redacted = refl

long_redacted : redact_identifier "SELLER-12345" ≡ "****2345"
unfolding redact_identifier
long_redacted = refl

environment_key : secret_environment_key "pilot_seller:1" ≡ "AMAZON_SECRET_PILOT_SELLER_1"
unfolding secret_environment_key
environment_key = refl

mixed_transport : transport_mode_is_consistent "live" "fixture:demo" ≡ false
unfolding transport_mode_is_consistent
mixed_transport = refl

claim_due_runs-TakesWaiting_example :
    let batch = (claim_due_runs sample_db 200 nothing_skipped (pos 10)).0 in
    (length batch
      ≡ min (clamp 1 25 (pos 10)) (count_where (is_waiting 200 nothing_skipped) sample_db.runs))
    × All (λ c. any (is_claim_of 200 nothing_skipped c) sample_db.runs ≡ true) batch
claim_due_runs-TakesWaiting_example =
    claim_due_runs-TakesWaiting sample_db 200 nothing_skipped (pos 10) (refl, (refl, tt))

claim_due_runs-exclusive_example :
    any
      (is_handed 7)
      (claim_due_runs
        (claim_due_runs sample_db 200 nothing_skipped (pos 10)).1
        300
        nothing_skipped
        (pos 10)).0
    ≡ false
unfolding claim_due_runs
claim_due_runs-exclusive_example =
    claim_due_runs-exclusive sample_db 200 300 nothing_skipped nothing_skipped (pos 10) (pos 10) 7
      (omega arith) refl
