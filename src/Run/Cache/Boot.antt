-- ===== src/Run/Cache/Boot.antt =====
-- Boot, BootEmpty and Release of cache.go: the private volumes of runs. A volume is kept by the last
-- element of its directory.
pub mod Outcome
pub mod Progress
use teploy_sandbox.Prelude.{
  ℕ, Bool, true, zero, suc, not, Option, none, some, [], if◌then◌else◌, Text, codes, CaseTable,
  to_lower, lookup, insert, erase, Result, ok, err, not_found, internal,
}
use teploy_sandbox.Run.Types.{WarmManifest}
use teploy_sandbox.Run.Cache.Tree.{Tree, Disk, Fault, gone, broken, Copied, copy_tree}
use teploy_sandbox.Run.Cache.Store.{
  Store, Digest, slug_key, gen_path, run_path, mark, unmark, busy_at, generation, manifest,
  touch_last_used,
}

-- What Boot returns beside an error: the directory, and the manifest of the template that it has
-- copied (`booted`).
pub record Volume : Type 0 where
  pub dir : Text
  pub template : Option WarmManifest

-- When others remove an entry that an attempt is to copy: before the walk reads the directory in
-- which it stands, or between that and its copying.
pub data Removal : Type 0 where
  unseen midway : Removal

-- What other goroutines do to the store during an attempt: before it marks the generation, and
-- while it copies, with the entries that they remove from under the copy. Attempts are counted down.
pub record Others : Type 0 where
  pub before : ℕ → Store → Store
  pub during : ℕ → Store → Store
  pub removal : ℕ → Text → Option Removal

-- The file system's answers to the copy of an attempt.
abbrev pub met : Others → ℕ → Disk → Disk
met others n disk = record disk {
  hidden = λ path. elim (others.removal n path) as (λ x. Bool) [
    | some unseen ↦ true
    | _ ↦ disk.hidden path
  ];
  fault = λ path. elim (others.removal n path) as (λ x. Option Fault) [
    | some midway ↦ some gone
    | _ ↦ disk.fault path
  ];
}

-- runDir, by its last element.
unfoldable pub run_name : ⦃u : CaseTable⦄ → Text → Text
run_name id = to_lower id

unfoldable pub put_volume : Text → Option Tree → Store → Store
put_volume name none s = s
put_volume name (some tree) s = record s { volumes = insert name tree s.volumes }

-- `_ = os.RemoveAll(runDir)`.
unfoldable pub remove_volume : Disk → Text → Store → Store
remove_volume disk name s =
    if disk.removes (run_path name) then record s { volumes = erase name s.volumes } else s

-- `os.MkdirAll(runDir, 0o700)` and the return of a cold volume.
unfoldable pub cold_volume : Disk → Text → Store → Result Volume × Store
unfolding put_volume
cold_volume disk name s = if not (disk.writes (run_path name)) then (err internal, s) else (
  ok (record { dir = run_path name; template = none }),
  elim (lookup name s.volumes) [ none ↦ put_volume name (some []) s | some tree ↦ s ],
)

module _ ⦃d : Digest⦄ where
  -- The loop of Boot.
  unfoldable pub boot_attempts : Disk → Others → Text → Text → ℕ → ℕ → Store → Result Volume × Store
  unfolding cold_volume put_volume remove_volume
  boot_attempts disk others slug name now zero s = cold_volume disk name s
  boot_attempts disk others slug name now (suc n) s = elim (manifest slug s) [
    | err not_found ↦ cold_volume disk name s
    | err e ↦ (err e, s)
    | ok mf ↦
        let dir = gen_path (slug_key slug) mf.gen in
        let seen = others.before n s in
        let copied =
          copy_tree (met others n disk) (generation (slug_key slug) mf.gen seen)
            (lookup name seen.volumes) in
        let after = unmark dir (others.during n (put_volume name copied.tree (mark dir seen))) in
        elim copied.failure [
          | none ↦ (
            ok (record { dir = run_path name; template = some mf }),
            touch_last_used (slug_key slug) now after,
          )
          | some gone ↦ boot_attempts disk others slug name now n (remove_volume disk name after)
          | some broken ↦ (err internal, remove_volume disk name after)
        ]
  ]

  -- CacheStore.Boot.
  unfoldable pub boot :
      ⦃u : CaseTable⦄ → Disk → Others → Text → Text → ℕ → Store → Result Volume × Store
  unfolding boot_attempts run_name
  boot disk others id slug now s =
      if not (disk.writes (codes "runs"))
      then (err internal, s)
      else boot_attempts disk others slug (run_name id) now 3 s

module _ ⦃u : CaseTable⦄ where
  -- CacheStore.BootEmpty.
  unfoldable pub boot_empty : Disk → Text → Store → Result Volume × Store
  unfolding cold_volume run_name
  boot_empty disk id s =
      if not (disk.writes (codes "runs"))
      then (err internal, s)
      else cold_volume disk (run_name id) s

  -- CacheStore.Release.
  unfoldable pub release_run : Disk → Text → Store → Store
  unfolding remove_volume run_name
  release_run disk id s =
      if busy_at (run_path (run_name id)) s then s else remove_volume disk (run_name id) s
