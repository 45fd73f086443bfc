-- ===== src/Catalogue/Profile/Holds.antt =====
-- What the profile does to report runs.
use essentials_merchant.Base.{
  Bool, true, false, not, any, ◌==◌, ℕ, ◌+◌, ◌≡◌, refl, inl, inr, ◌&&◌, some, List, [], ◌∷◌, map,
  arith, if◌then◌else◌, ok, select, update_where, count_where, Bool-cases, length, length-append,
}
use essentials_merchant.Catalogue.Profile.{
  PilotDb, PilotStatus, Connection, ReportRun, RunStatus, is_open, is_live_run, is_held, held,
  held_event, profiled_db, amazon_pilot_status, apply_amazon_read_only_profile,
}
use essentials_merchant.Catalogue.Profile.Compliance.{profile_applied}

-- The statuses that no step of the worker leaves.
abbrev pub has_ended : RunStatus → Bool
has_ended RunStatus.succeeded = true
has_ended RunStatus.archived = true
has_ended RunStatus.failed = true
has_ended RunStatus.cancelled = true
has_ended RunStatus.fatal = true
has_ended _ = false

closed_ended : (s : RunStatus) → is_open s ≡ not (has_ended s)
closed_ended RunStatus.queued = refl
closed_ended RunStatus.requesting = refl
closed_ended RunStatus.polling = refl
closed_ended RunStatus.downloading = refl
closed_ended RunStatus.parsing = refl
closed_ended RunStatus.analysing = refl
closed_ended RunStatus.succeeded = refl
closed_ended RunStatus.archived = refl
closed_ended RunStatus.failed = refl
closed_ended RunStatus.cancelled = refl
closed_ended RunStatus.fatal = refl

pub live_runs : List Connection → List ReportRun → ℕ
live_runs cs rs = count_where (λ r. is_live_run cs r && not (has_ended r.status)) rs

none_left :
    (cs : List Connection) (now : ℕ) (rs : List ReportRun)
    → live_runs cs (update_where (is_held cs) (held now) rs) ≡ 0
unfolding live_runs
none_left cs now [] = refl
none_left cs now (r ∷ rs) = ground (arith, closed_ended r.status, none_left cs now rs)

-- A run is left as it was, unless it had not ended on a live connection.
abbrev pub HoldsOnlyLive : List Connection → List ReportRun → List ReportRun → Type 0
HoldsOnlyLive cs [] [] = Unit
HoldsOnlyLive cs [] (r ∷ rs) = ⊥
HoldsOnlyLive cs (r ∷ rs) [] = ⊥
HoldsOnlyLive cs (r ∷ rs) (r' ∷ rs') =
    (if is_live_run cs r && not (has_ended r.status)
      then (r'.status ≡ RunStatus.failed) × (r'.failure_code ≡ some "pilot_manual_gate_required")
      else (r' ≡ r))
    × HoldsOnlyLive cs rs rs'

holds_only_live :
    (cs : List Connection) (now : ℕ) (rs : List ReportRun)
    → HoldsOnlyLive cs rs (update_where (is_held cs) (held now) rs)
holds_only_live cs now [] = tt
holds_only_live cs now (r ∷ rs) = elim (Bool-cases (is_held cs r)) [
  | inl hit ↦ rw (hit, ← closed_ended r.status, hit) ((refl, refl), holds_only_live cs now rs)
  | inr miss ↦ rw (miss, ← closed_ended r.status, miss) (refl, holds_only_live cs now rs)
]

length-held_events :
    (cs : List Connection) (rs : List ReportRun)
    → length (map held_event (select (is_held cs) rs)) ≡ live_runs cs rs
unfolding live_runs
length-held_events cs [] = refl
length-held_events cs (r ∷ rs) = ground (arith, closed_ended r.status, length-held_events cs rs)

-- For an actor that is a user, applying the profile succeeds and leaves no run of a live connection
-- in a status other than the five final ones: each that had not ended has failed with the code of the
-- manual gate, every other run is as it was, and one event is written for each that was held.
pub apply_profile_holds :
    (db : PilotDb) (actor now : ℕ)
    → any (λ u. u == actor) db.users ≡ true
    → (s : PilotStatus) × (db' : PilotDb) × (apply_amazon_read_only_profile db actor now
        ≡ ok (s, db'))
      × (live_runs db'.connections db'.runs ≡ 0)
      × HoldsOnlyLive db.connections db.runs db'.runs
      × (length db'.run_events ≡ live_runs db.connections db.runs + length db.run_events)
unfolding profiled_db
apply_profile_holds db actor now known =
    let (log, done) = profile_applied db actor now known in
    (
      amazon_pilot_status (profiled_db db log now),
      profiled_db db log now,
      done,
      none_left db.connections now db.runs,
      holds_only_live db.connections now db.runs,
      rw (length-append (map held_event (select (is_held db.connections) db.runs)) db.run_events)
          (omega (arith, length-held_events db.connections db.runs)),
    )
