-- ===== src/Run/Cache/Lock.antt =====
-- LockHash, detectRepoDir and hasLockfile of cache.go: the lockfiles that pin a repository's
-- dependencies, and CacheStore.Hash.
pub mod Names
pub mod Hash
use teploy_sandbox.Prelude.{
  Bool, true, false, ◌&&◌, ◌||◌, none, some, List, [], ◌∷◌, ◌++◌, leb, ◌==◌, if◌then◌else◌, all,
  any, Text, codes, text_eq, CaseTable, lookup, Result, ok, err, not_found, internal,
}
use teploy_sandbox.Run.Cache.Tree.{
  Node, directory, regular, symlink, special, Tree, Disk, gone, broken,
}
use teploy_sandbox.Run.Cache.Store.{Store, Digest}
use teploy_sandbox.Run.Cache.Boot.{run_name}

-- `lockfiles`.
abbrev pub lockfiles : List Text
lockfiles =
    codes "Cargo.lock"
    ∷ codes "Gemfile.lock"
    ∷ codes "Pipfile.lock"
    ∷ codes "composer.lock"
    ∷ codes "flake.lock"
    ∷ codes "go.mod"
    ∷ codes "mix.lock"
    ∷ codes "npm-shrinkwrap.json"
    ∷ codes "package-lock.json"
    ∷ codes "pnpm-lock.yaml"
    ∷ codes "poetry.lock"
    ∷ codes "yarn.lock"
    ∷ []

-- The directory of a volume, where `.` is the volume itself, and a file of it.
unfoldable pub file_in : Text → Text → Text
file_in dir name = if text_eq dir (codes ".") then name else dir ++ (b'/' ∷ name)

-- os.ReadFile. A special file is taken to be unreadable.
unfoldable pub read_lockfile : Disk → Tree → Text → Result Text
read_lockfile disk tree path = elim (lookup path tree) [
  | none ↦ err not_found
  | some (directory mode) ↦ err internal
  | some (regular mode content) ↦ elim (disk.fault path) [
    | none ↦ ok content
    | some gone ↦ err not_found
    | some broken ↦ err internal
  ]
  | some (symlink target) ↦ disk.through target
  | some special ↦ err internal
]

-- `os.Stat(path)` returns no error.
unfoldable pub file_exists : Disk → Tree → Text → Bool
file_exists disk tree path = elim (lookup path tree) [
  | none ↦ false
  | some (directory mode) ↦ true
  | some (regular mode content) ↦ true
  | some (symlink target) ↦ elim (disk.through target) [ err not_found ↦ false | _ ↦ true ]
  | some special ↦ true
]

-- hasLockfile.
unfoldable pub has_lockfile : Disk → Tree → Text → Bool
unfolding file_in file_exists
has_lockfile disk tree dir = any (λ name. file_exists disk tree (file_in dir name)) lockfiles

-- dirNameSet.
unfoldable pub is_dir_name : Text → Bool
is_dir_name [] = false
is_dir_name (c ∷ name) =
    all
      (λ d.
        (leb b'a' d && leb d b'z')
        || (leb b'0' d && leb d b'9')
        || d == b'.'
        || d == b'_'
        || d == b'-')
      (c ∷ name)

-- The directories that the volume lists, of those the ones that can be the repository's.
unfoldable pub is_candidate : Disk → Tree → Text × Node → Bool
unfolding is_dir_name has_lockfile
is_candidate disk tree (name, directory mode) = is_dir_name name && has_lockfile disk tree name
is_candidate disk tree (name, regular mode content) = false
is_candidate disk tree (name, symlink target) = false
is_candidate disk tree (name, special) = false

unfoldable pub candidates : Disk → Tree → Tree → List Text
unfolding is_candidate
candidates disk tree [] = []
candidates disk tree (entry ∷ rest) =
    let found = candidates disk tree rest in
    if is_candidate disk tree entry then entry.0 ∷ found else found

-- detectRepoDir, by the directory's name from the volume.
unfoldable pub detect_repo_dir : Disk → Tree → Text
unfolding has_lockfile candidates
detect_repo_dir disk tree =
    if has_lockfile disk tree (codes ".")
    then codes "."
    else elim (candidates disk tree tree) [ dir ∷ [] ↦ dir | _ ↦ codes "." ]

module _ ⦃d : Digest⦄ where
  -- The loop of LockHash.
  unfoldable pub lock_lines : Disk → Tree → Text → List Text → Result Text
  unfolding read_lockfile
  lock_lines disk tree dir [] = ok []
  lock_lines disk tree dir (name ∷ names) = elim (read_lockfile disk tree (file_in dir name)) [
    | err not_found ↦ lock_lines disk tree dir names
    | err e ↦ err e
    | ok content ↦ elim (lock_lines disk tree dir names) [
      | err e ↦ err e
      | ok lines ↦ ok ((name ++ (b' ' ∷ d.hex content)) ++ (b'\n' ∷ lines))
    ]
  ]

  -- LockHash of a volume. One that does not exist is read as an empty one.
  unfoldable pub lock_hash_of : Disk → Tree → Result (Text × Text)
  unfolding detect_repo_dir lock_lines
  lock_hash_of disk tree =
      let dir = detect_repo_dir disk tree in
      elim (lock_lines disk tree dir lockfiles) [
        | err e ↦ err e
        | ok lines ↦ ok (d.hex ((codes "dir " ++ dir) ++ (b'\n' ∷ lines)), dir)
      ]

  -- LockHash of a run's directory, and CacheStore.Hash.
  unfoldable pub volume_hash : ⦃u : CaseTable⦄ → Disk → Text → Store → Result (Text × Text)
  unfolding run_name
  volume_hash disk id s =
      lock_hash_of disk (elim (lookup (run_name id) s.volumes) [ none ↦ [] | some tree ↦ tree ])
