-- ===== src/IntegrationAuth.antt =====
-- Authentication of internal requests, backend/crates/server/src/integration_auth.rs: key rotation,
-- the window of accepted timestamps, the signature and the store of used nonces. Times are in
-- microseconds, timestamps in seconds. The hex, sha2, hmac and chrono crates are the fields of
-- `Crates`; errors of the database connection are left out.
pub mod Integers
pub mod Window
pub mod Replay
mod Tests
use Prim.Native.String.{◌++◌ as append_text}
use essentials_merchant.Base.{
  ℕ, ℤ, pos, negsuc, suc, ◌+◌, ◌-◌, ◌*◌, ◌/◌, ◌^◌, String, Char, code, str_eq, Bool, true, false,
  not, ◌&&◌, ◌||◌, Option, none, some, List, [], ◌∷◌, if◌then◌else◌, ◌==◌, leb, ltb, Result, ok,
  err, ◌>>=◌, ◌>>◌, raise_if, or_raise, any, delete_where, clamp, byte_len, all_chars,
  is_ascii_alphanumeric, is_blank, is_empty,
}
use Integers.{parse_i64, show_i64, age_i64, exceeds}

pub record Crates : Type 0 where
  -- hex::decode
  pub decode_hex : String → Option (List ℕ)
  -- hex::encode of the SHA-256 digest
  pub sha256_hex : List ℕ → String
  -- Hmac::verify_slice, on the secret, the message and the supplied code
  pub verify_mac : String → String → List ℕ → Bool
  -- whether chrono's DateTime::from_timestamp represents the second
  pub is_representable : ℤ → Bool

pub record IntegrationKey : Type 0 where
  pub id : String
  pub secret : String

pub record IntegrationAuth : Type 0 where
  pub current : IntegrationKey
  pub previous : Option IntegrationKey
  pub max_clock_skew_seconds : ℕ

pub data IntegrationAuthError : Type 0 where
  malformed expired unknown_key invalid_signature replay : IntegrationAuthError

-- `headers` holds the value of each header that is visible ASCII text.
pub record Request : Type 0 where
  pub headers : String → Option String
  pub method : String
  pub path : String
  pub body : List ℕ

-- A row of `integration_request_nonces`.
pub record Nonce : Type 0 where
  pub key_id : String
  pub nonce : String
  pub request_timestamp : ℤ
  pub created_at : ℕ

-- The readings of the clock in one call: when the window is checked, at the insertion and at the
-- deletion.
pub record Clock : Type 0 where
  pub checked : ℕ
  pub inserted : ℕ
  pub purged : ℕ

abbrev pub second : ℕ
second = 1000000

-- `IntegrationKey::new`, with the error message left out.
pub new_key : String → String → Option IntegrationKey
new_key id secret =
    if is_blank id || ltb (byte_len secret) 16
    then none
    else some (record { id = id; secret = secret })

pub new_auth : IntegrationKey → Option IntegrationKey → ℤ → IntegrationAuth
new_auth current previous skew = record {
  current = current;
  previous = previous;
  max_clock_skew_seconds = clamp 30 900 skew;
}

pub status_code : IntegrationAuthError → ℕ
status_code replay = 409
status_code malformed = 401
status_code expired = 401
status_code unknown_key = 401
status_code invalid_signature = 401

abbrev present : Option String → Option String
present none = none
present (some v) = if is_empty v then none else some v

pub header : Request → String → Result IntegrationAuthError String
header r name = or_raise (present (r.headers name)) malformed

abbrev is_nonce_char : Char → Bool
is_nonce_char c = is_ascii_alphanumeric c || code c == b'-' || code c == b'_'

pub is_nonce_valid : String → Bool
is_nonce_valid nonce =
    leb 16 (byte_len nonce) && leb (byte_len nonce) 128 && all_chars is_nonce_char nonce

abbrev if_id : String → Option IntegrationKey → Option IntegrationKey
if_id key_id none = none
if_id key_id (some k) = if str_eq k.id key_id then some k else none

-- `IntegrationAuth::key`
pub key : IntegrationAuth → String → Option IntegrationKey
key auth key_id =
    if str_eq auth.current.id key_id then some auth.current else if_id key_id auth.previous

pub canonical_request : Crates → String → String → ℤ → String → List ℕ → String
canonical_request crates method path timestamp nonce body =
    let line = λ (a b : String). append_text a (append_text "\n" b) in
    line method (line path (line (show_i64 timestamp) (line nonce (crates.sha256_hex body))))

pub verify_signature :
    Crates → String → Request → ℤ → String → String → Result IntegrationAuthError (Unit {0})
verify_signature crates secret r timestamp nonce signature = do
  supplied ← or_raise (crates.decode_hex signature) malformed
  raise_if
      (not (
        crates.verify_mac secret (canonical_request crates r.method r.path timestamp nonce r.body)
          supplied))
      invalid_signature

-- What the first half of `verify` reads from a request.
pub record Accepted : Type 0 where
  pub key_id : String
  pub timestamp : ℤ
  pub nonce : String

-- `verify` up to the store of nonces.
pub check_request : Crates → IntegrationAuth → ℕ → Request → Result IntegrationAuthError Accepted
check_request crates auth now r = do
  key_id ← header r "x-essentials-key-id"
  sent ← header r "x-essentials-timestamp"
  timestamp ← or_raise (parse_i64 sent) malformed
  nonce ← header r "x-essentials-nonce"
  signature ← header r "x-essentials-signature"
  raise_if (not (is_nonce_valid nonce)) malformed
  raise_if (exceeds (age_i64 (now / second) timestamp) auth.max_clock_skew_seconds) expired
  k ← or_raise (key auth key_id) unknown_key
  verify_signature crates k.secret r timestamp nonce signature
  raise_if (not (crates.is_representable timestamp)) malformed
  ok (record { key_id = key_id; timestamp = timestamp; nonce = nonce })

abbrev pub is_same_nonce : String → String → Nonce → Bool
is_same_nonce key_id nonce row = str_eq row.key_id key_id && str_eq row.nonce nonce

abbrev pub is_old : ℕ → ℕ → Nonce → Bool
is_old skew now row = ltb (row.created_at + skew * 2 * second) now

abbrev pub nonce_row : Clock → Accepted → Nonce
nonce_row clock a = record {
  key_id = a.key_id;
  nonce = a.nonce;
  request_timestamp = a.timestamp;
  created_at = clock.inserted;
}

-- INSERT … ON CONFLICT DO NOTHING, and the deletion of old rows.
pub store_nonce :
    IntegrationAuth
    → Clock
    → List Nonce
    → Accepted
    → Result IntegrationAuthError (Unit {0}) × List Nonce
store_nonce auth clock rows a =
    if any (is_same_nonce a.key_id a.nonce) rows then (err replay, rows) else (
      ok tt,
      delete_where (is_old auth.max_clock_skew_seconds clock.purged) (nonce_row clock a ∷ rows),
    )

abbrev pub store_or_stop :
    IntegrationAuth
    → Clock
    → List Nonce
    → Result IntegrationAuthError Accepted
    → Result IntegrationAuthError (Unit {0}) × List Nonce
store_or_stop auth clock rows (err e) = (err e, rows)
store_or_stop auth clock rows (ok a) = store_nonce auth clock rows a

unfoldable pub verify :
    Crates
    → IntegrationAuth
    → Clock
    → List Nonce
    → Request
    → Result IntegrationAuthError (Unit {0}) × List Nonce
verify crates auth clock rows r =
    store_or_stop auth clock rows (check_request crates auth clock.checked r)
