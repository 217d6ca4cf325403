-- ===== src/Run/Manager/Reap.antt =====
-- Manager.Reap (manager.go). Its last call, Sweep, evicts templates of the warm cache, of which a
-- world holds none.
pub mod Expired
use teploy_sandbox.Prelude.{ℕ, Bool, List, [], ◌∷◌, leb, if◌then◌else◌, length}
use teploy_sandbox.Run.Types.{Run, Registry}
use teploy_sandbox.Run.Manager.Request.{Config}
use teploy_sandbox.Run.Manager.World.{World, Answers, close_egress, release_warm, remove_container}

-- `!run.ExpiresAt.After(now)`.
unfoldable pub is_due : ℕ → Run → Bool
is_due now run = leb run.expires_at now

-- The slice `expired`.
unfoldable pub due_runs : ℕ → Registry → List Run
unfolding is_due
due_runs now [] = []
due_runs now (entry ∷ rest) =
    let others = due_runs now rest in if is_due now entry.1 then entry.1 ∷ others else others

-- The registry after the deletions.
unfoldable pub kept_runs : ℕ → Registry → Registry
unfolding is_due
kept_runs now [] = []
kept_runs now (entry ∷ rest) =
    let others = kept_runs now rest in if is_due now entry.1 then others else entry ∷ others

-- The body of the second loop: the removal comes last, and if it fails it is only logged.
unfoldable pub reap_run : Config → Answers → Run → World → World
unfolding release_warm close_egress remove_container
reap_run config a run w =
    remove_container a run.container_id (close_egress config run.id (release_warm config a run w))

unfoldable pub reap_runs : Config → Answers → List Run → World → World
unfolding reap_run
reap_runs config a [] w = w
reap_runs config a (run ∷ runs) w = reap_runs config a runs (reap_run config a run w)

-- Manager.Reap: how many runs were due, and the world after it.
unfoldable pub reap : Config → Answers → ℕ → World → ℕ × World
unfolding due_runs kept_runs reap_runs
reap config a now w =
    let due = due_runs now w.runs in
    (length due, reap_runs config a due (record w { runs = kept_runs now w.runs }))
