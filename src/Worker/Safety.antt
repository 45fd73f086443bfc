-- ===== src/Worker/Safety.antt =====
-- What the steps of the worker keep: the log of every run, the archive, and the runs of others.
use essentials_merchant.Base.{ℕ, ◌+◌, false, ◌≡◌, ◌==◌, String, List, [], ◌∷◌}
use essentials_merchant.Marketplace.{MarketplaceDb, ClaimedReportRun, Bytes}
use essentials_merchant.Marketplace.Steps.{Steps}
use essentials_merchant.Marketplace.Log.{IsLogged, Steps-IsLogged}
use essentials_merchant.Marketplace.Archive.{Holds, Steps-Holds}
use essentials_merchant.Marketplace.Isolation.{SameRun, Steps-SameRun}
use essentials_merchant.Worker.Failure.{Means}
use essentials_merchant.Worker.Gate.{Surroundings}
use essentials_merchant.Worker.Process.{process_run}
use essentials_merchant.Worker.Cycle.{process_runs}
use essentials_merchant.Worker.Chain.Arms.{process_run-Steps}

-- Whatever the client answers and whichever writes the database refuses, a step of the worker for
-- one run leaves the row and the last log entry of every other run as they were.
pub process_run-SameRun :
    (means : Means) (s : Surroundings) (db : MarketplaceDb) (now : ℕ) (run : ClaimedReportRun)
    (j : ℕ)
    → (j == run.id) ≡ false
    → SameRun j db (process_run means s db now run)
process_run-SameRun means s db now run j apart =
    Steps-SameRun j apart (process_run-Steps means s db now run)

-- What every step of the worker keeps, a batch of steps keeps.
process_runs-keep {κ} :
    (P : MarketplaceDb → Type κ) (means : ℕ → Means) (around : ℕ → Surroundings) (now : ℕ)
    → ((id : ℕ) (a b : MarketplaceDb) → Steps id a b → P a → P b)
    → (runs : List ClaimedReportRun) (n : ℕ) (db : MarketplaceDb) → P db
    → P (process_runs means around now n db runs)
unfolding process_runs
process_runs-keep P means around now keep [] n db h = h
process_runs-keep P means around now keep (run ∷ runs) n db h =
    let db' = process_run (means n) (around n) db now run in
    process_runs-keep P means around now keep runs (n + 1) db'
      (keep run.id db db' (process_run-Steps (means n) (around n) db now run) h)

-- If the newest log entry of every run names its status, this is still so after the worker has gone
-- through a batch of claimed runs, whatever the client answers and whichever writes the database
-- refuses.
pub process_runs-IsLogged :
    (means : ℕ → Means) (around : ℕ → Surroundings) (now n : ℕ) (db : MarketplaceDb)
    (runs : List ClaimedReportRun)
    → IsLogged db
    → IsLogged (process_runs means around now n db runs)
process_runs-IsLogged means around now n db runs h =
    process_runs-keep IsLogged means around now (λ id a b chain. Steps-IsLogged chain) runs n db h

-- The bytes, their decoding and their digest that are archived for a run are the same after the
-- worker has gone through a batch of claimed runs, also when a later download brings other bytes.
pub process_runs-Holds :
    (means : ℕ → Means) (around : ℕ → Surroundings) (now n : ℕ) (db : MarketplaceDb)
    (runs : List ClaimedReportRun) (id : ℕ) (raw decoded : Bytes) (sha256 : String)
    → Holds id raw decoded sha256 db
    → Holds id raw decoded sha256 (process_runs means around now n db runs)
process_runs-Holds means around now n db runs id raw decoded sha256 h =
    process_runs-keep (Holds id raw decoded sha256) means around now
      (λ j a b chain. Steps-Holds id raw decoded sha256 chain) runs n db h
