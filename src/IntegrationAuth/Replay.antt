-- ===== src/IntegrationAuth/Replay.antt =====
-- No request is accepted twice.
use essentials_merchant.Base.{
  ℕ, ℤ, pos, negsuc, ◌+◌, ◌*◌, ◌/◌, ◌^◌, ◌≤◌, ◌<◌, String, str_eq_refl, ◌≡◌, ◌≢◌, ◌⊎◌, inl, inr,
  Bool, true, ◌&&◌, List, [], ◌∷◌, arith, ◌==◌, ok, any, delete_where, All, Bool-cases,
  Result-cases,
}
use essentials_merchant.IntegrationAuth.{
  Crates, IntegrationAuth, Request, Accepted, Nonce, Clock, second, check_request, is_same_nonce,
  is_old, nonce_row, store_nonce, verify,
}
use essentials_merchant.IntegrationAuth.Window.{
  IsBounded, IsWithin, stamp_of, check_request-IsChecked, check_request-authentic,
}

-- Calls of `verify` one after another, each with its own clock.
pub verify_all : Crates → IntegrationAuth → List Nonce → List (Clock × Request) → List Nonce
verify_all crates auth rows [] = rows
verify_all crates auth rows ((clock, r) ∷ calls) =
    verify_all crates auth (verify crates auth clock rows r).1 calls

-- The row that an accepted request has left behind.
abbrev is_spent : String → String → ℕ → Nonce → Bool
is_spent key_id nonce c row = is_same_nonce key_id nonce row && row.created_at == c

-- That row is still there, or its deletion was due before `now`.
abbrev IsSpent : String → String → ℕ → ℕ → ℕ → List Nonce → Type 0
IsSpent key_id nonce c skew now rows =
    (any (is_spent key_id nonce c) rows ≡ true) ⊎ (c + skew * 2 * second < now)

module _ (key_id nonce : String) (c skew now : ℕ) where
  delete_where-IsSpent :
      (purged : ℕ) (rows : List Nonce)
      → purged ≤ now
      → any (is_spent key_id nonce c) rows ≡ true
      → IsSpent key_id nonce c skew now (delete_where (is_old skew purged) rows)
  delete_where-IsSpent purged [] early h = cc
  delete_where-IsSpent purged (row ∷ rows) early h =
      elim (Bool-cases (is_spent key_id nonce c row)) [
        | inl hit ↦ elim (Bool-cases (is_old skew purged row)) [
          | inl old ↦ inr (ground arith)
          | inr young ↦ inl (rw young (rw hit))
        ]
        | inr miss ↦ elim (delete_where-IsSpent purged rows early (rw miss at h)) [
          | inl kept ↦ inl (ground (arith, kept))
          | inr due ↦ inr due
        ]
      ]

store_nonce-IsSpent :
    (auth : IntegrationAuth) (clock : Clock) (rows : List Nonce) (a : Accepted)
    (key_id nonce : String) (c now : ℕ)
    → clock.purged ≤ now
    → IsSpent key_id nonce c auth.max_clock_skew_seconds now rows
    → IsSpent key_id nonce c auth.max_clock_skew_seconds now (store_nonce auth clock rows a).1
unfolding store_nonce
store_nonce-IsSpent auth clock rows a key_id nonce c now early (inr due) = inr due
store_nonce-IsSpent auth clock rows a key_id nonce c now early (inl kept) =
    elim (Bool-cases (any (is_same_nonce a.key_id a.nonce) rows)) [
      | inl used ↦ rw (used, store_nonce) (inl kept)
      | inr unused ↦
          rw (unused, store_nonce)
            (delete_where-IsSpent key_id nonce c auth.max_clock_skew_seconds now clock.purged
              (nonce_row clock a ∷ rows) early (ground (arith, kept)))
    ]

verify-IsSpent :
    (crates : Crates) (auth : IntegrationAuth) (clock : Clock) (rows : List Nonce) (r : Request)
    (key_id nonce : String) (c now : ℕ)
    → clock.purged ≤ now
    → IsSpent key_id nonce c auth.max_clock_skew_seconds now rows
    → IsSpent key_id nonce c auth.max_clock_skew_seconds now (verify crates auth clock rows r).1
unfolding verify
verify-IsSpent crates auth clock rows r key_id nonce c now early h =
    elim (Result-cases (check_request crates auth clock.checked r)) [
      | inl (a, passed) ↦
          rw (passed, verify) (store_nonce-IsSpent auth clock rows a key_id nonce c now early h)
      | inr (e, refused) ↦ rw (refused, verify) h
    ]

verify_all-IsSpent :
    (crates : Crates) (auth : IntegrationAuth) (rows : List Nonce) (calls : List (Clock × Request))
    (key_id nonce : String) (c now : ℕ)
    → All (λ call. Clock.purged call.0 ≤ now) calls
    → IsSpent key_id nonce c auth.max_clock_skew_seconds now rows
    → IsSpent key_id nonce c auth.max_clock_skew_seconds now (verify_all crates auth rows calls)
unfolding verify_all
verify_all-IsSpent crates auth rows [] key_id nonce c now early h = h
verify_all-IsSpent crates auth rows ((clock, r) ∷ calls) key_id nonce c now early h =
    verify_all-IsSpent crates auth (verify crates auth clock rows r).1 calls key_id nonce c now
      early.1 (verify-IsSpent crates auth clock rows r key_id nonce c now early.0 h)

-- The request was made less than the whole window ahead of the clock.
abbrev pub IsShortOf : ℕ → ℕ → ℤ → Type 0
IsShortOf limit now (pos t) = t < now + limit
IsShortOf limit now (negsuc n) = Unit

-- A row whose deletion was due belongs to a timestamp that has left the window.
stale_pos :
    (limit c t seen now : ℕ)
    → seen ≤ c
    → t < seen / second + limit
    → c + limit * 2 * second < now
    → (now / second ≤ t + limit)
    → ⊥
stale_pos limit c t seen now h k due within = omega arith

stale :
    (limit c seen now : ℕ) (t : ℤ)
    → seen ≤ c
    → 1 ≤ limit
    → IsShortOf limit (seen / second) t
    → c + limit * 2 * second < now
    → IsWithin limit (now / second) t
    → ⊥
stale limit c seen now (pos t) h l short due within =
    stale_pos limit c t seen now h short due within.0
stale limit c seen now (negsuc n) h l short due within = omega arith

store_nonce-fresh :
    (auth : IntegrationAuth) (clock : Clock) (rows : List Nonce) (a : Accepted) (now : ℕ)
    → clock.purged ≤ now
    → (store_nonce auth clock rows a).0 ≡ ok tt
    → IsSpent a.key_id a.nonce clock.inserted auth.max_clock_skew_seconds now
        (store_nonce auth clock rows a).1
unfolding store_nonce
store_nonce-fresh auth clock rows a now early e =
    elim (Bool-cases (any (is_same_nonce a.key_id a.nonce) rows)) [
      | inl used ↦ absurd (ground (arith, used, e))
      | inr unused ↦
          rw (unused, store_nonce)
            (delete_where-IsSpent a.key_id a.nonce clock.inserted auth.max_clock_skew_seconds now
              clock.purged (nonce_row clock a ∷ rows) early
              (ground (arith, str_eq_refl a.key_id, str_eq_refl a.nonce)))
    ]

any-spent :
    (key_id nonce : String) (c : ℕ) (rows : List Nonce)
    → any (is_spent key_id nonce c) rows ≡ true
    → any (is_same_nonce key_id nonce) rows ≡ true
any-spent key_id nonce c [] h = h
any-spent key_id nonce c (row ∷ rows) h = ground (arith, any-spent key_id nonce c rows)

-- A second check that passes has read the same key, nonce and timestamp.
module _ (crates : Crates) (auth : IntegrationAuth) (r : Request) (first final : Clock) (t : ℤ)
    (bounded : IsBounded crates) (small : auth.max_clock_skew_seconds ≤ 900)
    (wide : 1 ≤ auth.max_clock_skew_seconds) (in_range : final.checked / second < 2 ^ 62)
    (ordered : first.checked ≤ first.inserted) (stamped : stamp_of r ≡ ok t)
    (short : IsShortOf auth.max_clock_skew_seconds (first.checked / second) t) where
  refused_again :
      (a b : Accepted) (rows : List Nonce)
      → check_request crates auth first.checked r ≡ ok a
      → check_request crates auth final.checked r ≡ ok b
      → IsSpent a.key_id a.nonce first.inserted auth.max_clock_skew_seconds final.checked rows
      → (store_nonce auth final rows b).0 ≡ ok tt
      → ⊥
  unfolding store_nonce
  refused_again a b rows ha hb (inl kept) e =
      let once = check_request-IsChecked crates auth first.checked r a ha in
      let again = check_request-IsChecked crates auth final.checked r b hb in
      let same_key : a.key_id ≡ b.key_id = ground (arith, once.key_named, again.key_named) in
      let same_nonce : a.nonce ≡ b.nonce = ground (arith, once.nonce_named, again.nonce_named) in
      ground (arith, e, same_key, same_nonce, any-spent a.key_id a.nonce first.inserted rows kept)
  refused_again a b rows ha hb (inr due) e =
      let again = check_request-IsChecked crates auth final.checked r b hb in
      let same : b.timestamp ≡ t = ground (arith, again.stamped, stamped) in
      stale auth.max_clock_skew_seconds first.inserted first.checked final.checked t ordered wide
        short due
        (rw same at
          (check_request-authentic crates auth final.checked r b bounded small in_range hb).1)

-- An accepted request is not accepted again, whatever other requests come in between: while its
-- nonce is stored it is a replay, and once the nonce may be deleted its timestamp has expired. This
-- holds for a window of 1 to 900 seconds, a clock that does not run backwards and a range of chrono
-- as documented, if the request was not made the whole window ahead of the clock.
pub verify-no_replay :
    (crates : Crates) (auth : IntegrationAuth) (first final : Clock) (rows : List Nonce)
    (between : List (Clock × Request)) (r : Request) (t : ℤ)
    → IsBounded crates
    → auth.max_clock_skew_seconds ≤ 900
    → 1 ≤ auth.max_clock_skew_seconds
    → final.checked / second < 2 ^ 62
    → first.checked ≤ first.inserted
    → first.purged ≤ final.checked
    → All (λ call. Clock.purged call.0 ≤ final.checked) between
    → stamp_of r ≡ ok t
    → IsShortOf auth.max_clock_skew_seconds (first.checked / second) t
    → (verify crates auth first rows r).0 ≡ ok tt
    → (verify crates auth final
        (verify_all crates auth (verify crates auth first rows r).1 between)
        r).0
      ≢ ok tt
unfolding verify
verify-no_replay crates auth first final rows between r t bounded small wide in_range ordered purged
      calls stamped short e again =
    elim (Result-cases (check_request crates auth first.checked r)) [
      | inr (x, refused) ↦ ground (arith, refused, e)
      | inl (a, ha) ↦ elim (Result-cases (check_request crates auth final.checked r)) [
        | inr (x, refused) ↦ ground (arith, refused, again)
        | inl (b, hb) ↦
            refused_again crates auth r first final t bounded small wide in_range ordered stamped
              short a b (verify_all crates auth (verify crates auth first rows r).1 between) ha hb
              (verify_all-IsSpent crates auth (verify crates auth first rows r).1 between a.key_id
                a.nonce first.inserted final.checked calls (spent_after a ha))
              (rw (hb) at again)
      ]
    ]
  where
    spent_after :
        (a : Accepted)
        → check_request crates auth first.checked r ≡ ok a
        → IsSpent a.key_id a.nonce first.inserted auth.max_clock_skew_seconds final.checked
            (verify crates auth first rows r).1
    spent_after a ha =
        rw (ha, verify)
          (store_nonce-fresh auth first rows a final.checked purged (rw (ha, verify) at e))
