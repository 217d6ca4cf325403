-- ===== src/Run/Manager/Warm.antt =====
-- CommitWarm, WarmHash, WarmManifest and DropWarm of manager.go. The copying of CacheStore.Commit
-- is an answer, and so are a volume's hash and a template's manifest.
pub mod Commit
use teploy_sandbox.Prelude.{
  false, not, Option, none, some, [], if◌then◌else◌, Text, is_empty, CaseTable, Result, ok, err,
  bad_request,
}
use teploy_sandbox.Run.Types.{Run, WarmState, WarmManifest}
use teploy_sandbox.Run.Paths.{normalize_slug}
use teploy_sandbox.Run.Manager.Request.{Config}
use teploy_sandbox.Run.Manager.World.{World, Answers, release}
use teploy_sandbox.Run.Manager.Destroy.{get}

pub record CacheAnswers : Type 0 where
  pub commit : Text → Text → Result WarmManifest
  pub hash : Text → Result (Text × Text)
  pub manifest : Text → Result WarmManifest
  pub drop : Text → Result (Unit {0})

-- The state that CommitWarm and WarmHash report. A run with a volume has a WarmState.
reported : Option WarmState → Text → Text → Text → WarmState
reported warm repo hash dir = record {
  repo = repo;
  booted = elim warm [ none ↦ false | some s ↦ s.booted ];
  lock_hash = hash;
  repo_dir = dir;
}

repo_of : Run → Text
repo_of run = elim run.warm [ none ↦ [] | some s ↦ s.repo ]

-- The first four returns of CommitWarm and WarmHash: the run, if it has a volume.
unfoldable pub warm_run : Config → Text → World → Result Run
unfolding get
warm_run config id w = if not config.has_cache then err bad_request else elim (get id w) [
  | err e ↦ err e
  | ok run ↦ if is_empty run.cache_dir then err bad_request else ok run
]

module _ ⦃u : CaseTable⦄ where
  -- `slug`.
  unfoldable pub commit_slug : Run → Text → Result Text
  unfolding repo_of
  commit_slug run repo = if is_empty repo then ok (repo_of run) else normalize_slug repo

  -- Manager.CommitWarm. `others` is what other goroutines do while the volume is copied, and `a`
  -- tells whether the volume is in use once this commit has taken its mark off.
  unfoldable pub commit_warm :
      Config
      → Answers
      → CacheAnswers
      → Text
      → Text
      → (World → World)
      → World
      → Result WarmState × World
  unfolding warm_run commit_slug reported get
  commit_warm config a c id repo others w = elim (warm_run config id w) [
    | err e ↦ (err e, w)
    | ok run ↦ elim (commit_slug run repo) [
      | err e ↦ (err e, w)
      | ok slug ↦
          let after = others w in
          let settled : World = elim (get id after) [
            | err e ↦ release a id after
            | ok run' ↦ after
          ] in
          elim (c.commit id slug) [
            | err e ↦ (err e, settled)
            | ok mf ↦ (ok (reported run.warm slug mf.lock_hash mf.repo_dir), settled)
          ]
    ]
  ]

  -- Manager.WarmManifest.
  unfoldable pub warm_manifest : Config → CacheAnswers → Text → Result WarmManifest
  warm_manifest config c slug =
      if not config.has_cache
      then err bad_request
      else elim (normalize_slug slug) [ err e ↦ err e | ok normalized ↦ c.manifest normalized ]

  -- Manager.DropWarm.
  unfoldable pub drop_warm : Config → CacheAnswers → Text → Result (Unit {0})
  drop_warm config c slug =
      if not config.has_cache
      then err bad_request
      else elim (normalize_slug slug) [ err e ↦ err e | ok normalized ↦ c.drop normalized ]

-- Manager.WarmHash.
unfoldable pub warm_hash : Config → CacheAnswers → Text → World → Result WarmState
unfolding warm_run reported repo_of
warm_hash config c id w = elim (warm_run config id w) [
  | err e ↦ err e
  | ok run ↦ elim (c.hash id) [
    | err e ↦ err e
    | ok (hash, dir) ↦ ok (reported run.warm (repo_of run) hash dir)
  ]
]
