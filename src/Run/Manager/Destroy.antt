-- ===== src/Run/Manager/Destroy.antt =====
-- What ends a run or reads it: Get, List, Destroy and its phases, DestroyAll (manager.go).
pub mod Removed
pub mod Restored
use teploy_sandbox.Prelude.{
  none, some, List, [], ◌∷◌, if◌then◌else◌, Text, lookup, insert, erase, Result, ok, err, not_found,
  internal,
}
use teploy_sandbox.Run.Types.{Run, Registry}
use teploy_sandbox.Run.Lease.{finish_exec}
use teploy_sandbox.Run.Manager.Request.{Config}
use teploy_sandbox.Run.Manager.World.{World, Answers, close_egress, release_warm, remove_container}

-- Manager.Get: the copy of a run that is tracked.
unfoldable pub get : Text → World → Result Run
get id w = elim (lookup id w.runs) [ none ↦ err not_found | some run ↦ ok run ]

-- The first critical section of Destroy: the run is no longer tracked while its container is removed.
unfoldable pub destroy_begin : Text → World → Result Run × World
destroy_begin id w = elim (lookup id w.runs) [
  | none ↦ (err not_found, w)
  | some run ↦ (ok run, record w { runs = erase id w.runs })
]

-- The rest of Destroy, with the run that was taken out.
unfoldable pub destroy_end : Config → Answers → Text → Run → World → Result (Unit {0}) × World
unfolding release_warm close_egress
destroy_end config a id run w =
    let removed = remove_container a run.container_id w in
    if a.remove run.container_id
    then (ok tt, close_egress config id (release_warm config a run removed))
    else (err internal, record removed { runs = insert id run removed.runs })

-- Manager.Destroy, when no other goroutine works on the run while its container is removed.
unfoldable pub destroy : Config → Answers → Text → World → Result (Unit {0}) × World
unfolding destroy_begin destroy_end
destroy config a id w = elim (lookup id w.runs) [
  | none ↦ (err not_found, w)
  | some run ↦ destroy_end config a id run (record w { runs = erase id w.runs })
]

-- Manager.DestroyAll over the ids that List returned. Its errors are dropped.
unfoldable pub destroy_all : Config → Answers → List Text → World → World
unfolding destroy
destroy_all config a [] w = w
destroy_all config a (id ∷ ids) w =
    let (result, v) = destroy config a id w in destroy_all config a ids v
