-- ===== src/Run/Cache/Commit.antt =====
-- Commit, cleanGenerations and Drop of cache.go: publishing a repository's template and removing it.
-- Commit is also split at its calls, so that others can run between them.
pub mod Frame
pub mod Clean
pub mod Stale
pub mod Written
pub mod Shown
pub mod Publish
pub mod Race
use teploy_sandbox.Prelude.{
  ℕ, Bool, true, false, not, ◌&&◌, ◌||◌, Option, none, some, [], ◌∷◌, ◌++◌, if◌then◌else◌, any,
  Text, codes, text_eq, starts, CaseTable, Table, lookup, insert, erase, Result, ok, err,
  bad_request, internal,
}
use teploy_sandbox.Run.Types.{WarmManifest}
use teploy_sandbox.Run.Cache.Tree.{Tree, Disk, Copied, copy_tree}
use teploy_sandbox.Run.Cache.Store.{
  Repo, Document, holds, Store, Digest, slug_key, repo_path, gen_path, run_path, mark, unmark,
  busy_at, marks_on, is_gen_name, repo_at, with_repo, generation, manifest, manifest_from_dir,
  touch_last_used,
}
use teploy_sandbox.Run.Cache.Boot.{run_name}
use teploy_sandbox.Run.Cache.Lock.{volume_hash}

-- A directory with nothing in it.
abbrev pub empty_repo : Repo
empty_repo = record { manifest = none; entries = []; loose_bytes = 0; last_used = none }

-- `os.MkdirAll(sd, 0o700)`.
unfoldable pub make_repo : Text → Store → Store
unfolding repo_at with_repo
make_repo key s = elim (repo_at key s) [ none ↦ with_repo key empty_repo s | some repo ↦ s ]

-- The trees beside a slug's manifest, after a change.
unfoldable pub change_entries : (Table Tree → Table Tree) → Text → Store → Store
unfolding repo_at with_repo
change_entries f key s = elim (repo_at key s) [
  | none ↦ s
  | some repo ↦ with_repo key (record repo { entries = f repo.entries }) s
]

-- `os.RemoveAll(dir)` of a directory beside a manifest.
unfoldable pub remove_gen : Disk → Text → Text → Store → Store
unfolding change_entries
remove_gen disk key gen s =
    if disk.removes (gen_path key gen) then change_entries (erase gen) key s else s

abbrev pub is_occupied : Option Tree → Bool
is_occupied none = false
is_occupied (some []) = false
is_occupied (some (entry ∷ rest)) = true

-- `os.Rename(dir, trash)`, which fails where there is no such directory, or where `trash` is one that
-- is not empty.
unfoldable pub rename_gen : Disk → Text → Text → Text → Store → Option Store
unfolding change_entries
rename_gen disk key gen trash s = elim (generation key gen s) [
  | none ↦ none
  | some tree ↦
      if not (disk.writes (gen_path key trash)) || is_occupied (generation key trash s)
      then none
      else some (change_entries (λ entries. insert trash tree (erase gen entries)) key s)
]

-- One round of the loop of cleanGenerations.
unfoldable pub clean_entry : Disk → Text → Text → Text → Store → Store
unfolding remove_gen rename_gen
clean_entry disk key current name s =
    if not (is_gen_name name) && not (starts (codes "t-g-") name)
    then s
    else if not (is_gen_name name)
    then remove_gen disk key name s
    else if text_eq name current || busy_at (gen_path key name) s
    then s
    else elim (rename_gen disk key name (codes "t-" ++ name) s) [
      | none ↦ s
      | some s' ↦ remove_gen disk key (codes "t-" ++ name) s'
    ]

unfoldable pub clean_entries : Disk → Text → Text → Table Tree → Store → Store
unfolding clean_entry
clean_entries disk key current [] s = s
clean_entries disk key current (entry ∷ rest) s =
    clean_entries disk key current rest (clean_entry disk key current entry.0 s)

-- The generation that cleanGenerations spares: the one that the manifest names as it reads it.
unfoldable pub current_gen : Text → Store → Text
current_gen key s = elim (manifest_from_dir key s) [ none ↦ [] | some mf ↦ mf.gen ]

-- cleanGenerations from its ReadDir on.
unfoldable pub delete_superseded : Disk → Text → Text → Store → Store
unfolding clean_entries
delete_superseded disk key current s = elim (repo_at key s) [
  | none ↦ s
  | some repo ↦ clean_entries disk key current repo.entries s
]

-- cleanGenerations.
unfoldable pub clean_generations : Disk → Text → Store → Store
unfolding current_gen delete_superseded
clean_generations disk key s = delete_superseded disk key (current_gen key s) s

-- writeManifest: the rename puts a whole document in place_node, or nothing changes. `size` is the
-- length of a document.
unfoldable pub write_manifest :
    Disk → (WarmManifest → ℕ) → Text → WarmManifest → Store → Option Store
unfolding repo_at with_repo
write_manifest disk size key mf s = elim (repo_at key s) [
  | none ↦ none
  | some repo ↦
      if not (disk.writes (gen_path key (codes "manifest.json")))
      then none
      else some
          (with_repo key (record repo { manifest = some (holds mf); loose_bytes = size mf }) s)
]

module _ ⦃d : Digest⦄ ⦃u : CaseTable⦄ where
  -- Commit up to its copy: the copy of the volume stands beside the manifest under the name `gen`,
  -- which is marked as in use.
  unfoldable pub commit_copy : Disk → Text → Text → Text → Store → Copied × Store
  unfolding make_repo change_entries run_name
  commit_copy disk id key gen s =
      let volume = run_path (run_name id) in
      let marked = mark volume (mark (gen_path key gen) (make_repo key s)) in
      let copied =
        copy_tree disk (lookup (run_name id) marked.volumes) (generation key gen marked) in
      (
        copied,
        unmark volume (elim copied.tree [
          | none ↦ marked
          | some tree ↦ change_entries (insert gen tree) key marked
        ]),
      )

  -- Commit from the result of its copy on.
  unfoldable pub publish :
      Disk
      → (WarmManifest → ℕ)
      → Text
      → WarmManifest
      → ℕ
      → Copied × Store
      → Result WarmManifest × Store
  unfolding write_manifest clean_generations remove_gen
  publish disk size key mf now (copied, s) = elim copied.failure [
    | some fault ↦ (err internal, remove_gen disk key mf.gen (unmark (gen_path key mf.gen) s))
    | none ↦ elim (write_manifest disk size key mf s) [
      | none ↦ (err internal, remove_gen disk key mf.gen (unmark (gen_path key mf.gen) s))
      | some published ↦ (
        ok mf,
        touch_last_used key now
            (clean_generations disk key (unmark (gen_path key mf.gen) published)),
      )
    ]
  ]

  -- CacheStore.Commit. `gen` is the name of the new generation, made of a fresh ULID.
  unfoldable pub commit :
      Disk → (WarmManifest → ℕ) → Text → Text → Text → ℕ → Store → Result WarmManifest × Store
  unfolding commit_copy publish
  commit disk size id slug gen now s = elim (volume_hash disk id s) [
    | err e ↦ (err e, s)
    | ok (hash, dir) ↦
        let key = slug_key slug in
        let mf : WarmManifest = record {
          repo = slug;
          lock_hash = hash;
          repo_dir = dir;
          gen = gen;
          created_at = now;
        } in
        if not (disk.writes (repo_path key))
        then (err internal, s)
        else publish disk size key mf now (commit_copy disk id key gen s)
  ]

module _ ⦃d : Digest⦄ where
  -- CacheStore.Drop.
  unfoldable pub drop : Disk → Text → Store → Result (Unit {0}) × Store
  drop disk slug s =
      let key = slug_key slug in
      elim (manifest slug s) [
        | err e ↦ (err e, s)
        | ok mf ↦ elim (repo_at key s) [
          | none ↦ (err internal, s)
          | some repo ↦
              if any (λ (entry : Text × Tree). busy_at (gen_path key entry.0) s) repo.entries
              then (err bad_request, s)
              else if not (disk.removes (repo_path key))
              then (err internal, s)
              else (ok tt, record s { repos = erase key s.repos })
        ]
      ]
