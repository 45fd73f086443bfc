-- ===== src/IntegrationAuth/Tests.antt =====
-- The checks of internal requests at a concrete key and request.
use essentials_merchant.Base.{
  pos, negsuc, String, str_eq, ◌≡◌, ◌≢◌, refl, ◌/◌, if◌then◌else◌, true, false, Option, none, some,
  [], ◌∷◌, ok, arith,
}
use essentials_merchant.IntegrationAuth.{
  Crates, IntegrationKey, IntegrationAuth, Request, Clock, Accepted, second, check_request, verify,
  header, key, verify_signature, canonical_request, is_nonce_valid, store_nonce,
}
use essentials_merchant.IntegrationAuth.Integers.{parse_i64, show_i64, age_i64, exceeds}
use essentials_merchant.IntegrationAuth.Window.{
  IsBounded, IsSigned, IsWithin, stamp_of, check_request-authentic,
}
use essentials_merchant.IntegrationAuth.Replay.{verify_all, verify-no_replay}

show_large : show_i64 (pos 9876543210) ≡ "9876543210"
unfolding show_i64
show_large = refl

parse_smallest : parse_i64 "-9223372036854775808" ≡ some (negsuc 9223372036854775807)
unfolding parse_i64
parse_smallest = refl

parse_too_large : parse_i64 "9223372036854775808" ≡ none
unfolding parse_i64
parse_too_large = refl

-- The keyed hash is a comparison with one fixed text, and no second before 1970 is represented.
abbrev sample_crates : Crates
sample_crates = record {
  decode_hex = λ text. some (1 ∷ []);
  sha256_hex = λ bytes. "e3b0";
  verify_mac =
      λ secret message supplied. str_eq message "POST\n/v1/events\n1000\nabcdefghijklmnop\ne3b0";
  is_representable = λ t. elim t [ pos n ↦ true | negsuc n ↦ false ];
}

abbrev sample_key : IntegrationKey
sample_key = record { id = "vendure"; secret = "0123456789abcdef" }

abbrev sample_auth : IntegrationAuth
sample_auth = record { current = sample_key; previous = none; max_clock_skew_seconds = 60 }

sample_headers : String → Option String
sample_headers name =
    if str_eq name "x-essentials-key-id"
    then some "vendure"
    else if str_eq name "x-essentials-timestamp"
    then some "1000"
    else if str_eq name "x-essentials-nonce"
    then some "abcdefghijklmnop"
    else some "01"

abbrev sample_request : Request
sample_request = record {
  headers = sample_headers;
  method = "POST";
  path = "/v1/events";
  body = [];
}

abbrev sample_accepted : Accepted
sample_accepted = record { key_id = "vendure"; timestamp = pos 1000; nonce = "abcdefghijklmnop" }

-- Twenty seconds after the request was made, and a second later.
abbrev first_clock : Clock
first_clock = record { checked = 1020000000; inserted = 1020000001; purged = 1020000002 }

abbrev final_clock : Clock
final_clock = record { checked = 1021000000; inserted = 1021000001; purged = 1021000002 }

sample-IsBounded : IsBounded sample_crates
sample-IsBounded n e = cc

run_check : check_request sample_crates sample_auth 1020000000 sample_request ≡ ok sample_accepted
unfolding check_request header sample_headers parse_i64 is_nonce_valid exceeds age_i64 key
    verify_signature canonical_request show_i64
run_check = refl

check_request-authentic_example :
    IsSigned sample_crates sample_auth sample_request sample_accepted
    × IsWithin 60 (1020000000 / second) (pos 1000)
check_request-authentic_example =
    check_request-authentic sample_crates sample_auth 1020000000 sample_request sample_accepted
      sample-IsBounded (omega arith) (omega arith) run_check

run_verify : (verify sample_crates sample_auth first_clock [] sample_request).0 ≡ ok tt
unfolding verify check_request header sample_headers parse_i64 is_nonce_valid exceeds age_i64 key
    verify_signature canonical_request show_i64 store_nonce
run_verify = refl

stamped : stamp_of sample_request ≡ ok (pos 1000)
unfolding header sample_headers parse_i64
stamped = refl

verify-no_replay_example :
    (verify sample_crates sample_auth final_clock
      (verify_all sample_crates sample_auth
        (verify sample_crates sample_auth first_clock [] sample_request).1
        [])
      sample_request).0
    ≢ ok tt
verify-no_replay_example =
    verify-no_replay sample_crates sample_auth first_clock final_clock [] [] sample_request
      (pos 1000) sample-IsBounded (omega arith) (omega arith) (omega arith) (omega arith)
      (omega arith) tt stamped (omega arith) run_verify
