-- ===== src/Run/Manager/Snapshots.antt =====
-- Snapshot and DeleteSnapshot of manager.go, over the set of images that exist.
pub mod Deletable
use teploy_sandbox.Prelude.{
  Bool, not, none, some, ◌++◌, if◌then◌else◌, Text, codes, starts, CaseTable, to_lower, lookup,
  Result, ok, err, not_found, bad_request, internal,
}
use teploy_sandbox.Run.Types.{Run}
use teploy_sandbox.Run.Runtime.Args.{snapshot_repo}
use teploy_sandbox.Run.Manager.World.{World, with_member, without_member}

-- Runtime.Snapshot and Runtime.RemoveImage: whether they succeed. A snapshot that fails leaves no
-- image.
pub record ImageAnswers : Type 0 where
  pub snapshot : Text → Text → Text → Bool
  pub remove_image : Text → Bool

module _ ⦃u : CaseTable⦄ where
  -- Manager.Snapshot with the ULID that it draws.
  unfoldable pub snapshot :
      ImageAnswers → Text → Text → World → (Text → Bool) → Result Text × (Text → Bool)
  snapshot a ulid id w images = elim (lookup id w.runs) [
    | none ↦ (err not_found, images)
    | some run ↦
        let ref = snapshot_repo ++ (codes ":" ++ to_lower ulid) in
        if a.snapshot run.container_id run.cache_path ref
        then (ok ref, with_member ref images)
        else (err internal, images)
  ]

-- Manager.DeleteSnapshot.
unfoldable pub delete_snapshot :
    ImageAnswers → Text → (Text → Bool) → Result (Unit {0}) × (Text → Bool)
delete_snapshot a ref images =
    if not (starts (snapshot_repo ++ codes ":") ref)
    then (err bad_request, images)
    else if a.remove_image ref
    then (ok tt, without_member ref images)
    else (err internal, images)
