-- ===== src/Run/Cache/Examples.antt =====
-- The theorems on the warm cache at small stores.
use mathlib.Core.List.{Perm}
use mathlib.Core.Path.{subst}
use teploy_sandbox.Prelude.{
  ℕ, ◌+◌, ◌≡◌, refl, ◌↔◌, inl, inr, true, false, none, some, List, [], ◌∷◌, ◌++◌, map, arith, ◌==◌,
  if◌then◌else◌, Bool-cases, Text, codes, text_eq, starts, contains, byte_length, CaseTable,
  lower_rune, to_lower, lookup, insert, erase, pos, ok, err, not_found,
}
use teploy_sandbox.Run.Types.{WarmManifest}
use teploy_sandbox.Run.Cache.Tree.{
  directory, regular, Tree, Disk, copy_tree, place_node, is_special, copy_walk, dir_size, node_size,
}
use teploy_sandbox.Run.Cache.Tree.Copy.{Distinct, Quiet}
use teploy_sandbox.Run.Cache.Store.{
  Repo, holds, Store, Digest, slug_key, repo_path, gen_path, run_path, mark, unmark, marks_on,
  is_gen_name, repo_at, document_at, generation, manifest, with_repo, manifest_from_dir, busy_at,
  touch_last_used,
}
use teploy_sandbox.Run.Cache.Boot.{
  unseen, midway, Others, boot_attempts, remove_volume, run_name, put_volume, cold_volume, boot,
}
use teploy_sandbox.Run.Cache.Boot.Outcome.{
  Spares, IsSingle, KeepsSingle, Outcome, boot-complete_or_cold,
}
use teploy_sandbox.Run.Cache.Lock.{
  lockfiles, file_in, read_lockfile, volume_hash, lock_hash_of, has_lockfile, detect_repo_dir,
  lock_lines, file_exists, candidates, is_candidate, is_dir_name,
}
use teploy_sandbox.Run.Cache.Lock.Names.{IsDigest, SameFiles}
use teploy_sandbox.Run.Cache.Lock.Hash.{lock_hash-equal_iff}
use teploy_sandbox.Run.Cache.Commit.{
  make_repo, change_entries, write_manifest, current_gen, delete_superseded, commit_copy, publish,
  commit, clean_generations, clean_entries, clean_entry, remove_gen, rename_gen,
}
use teploy_sandbox.Run.Cache.Commit.Written.{IsWellFormed}
use teploy_sandbox.Run.Cache.Commit.Race.{
  alone, IsDangling, overtaken_clean, IsOvertaken, overtaken_clean-loses_template,
}
use teploy_sandbox.Run.Cache.Commit.Publish.{committed}
use teploy_sandbox.Run.Cache.Shelf.{
  Shelf, Op, commits, boots, boots_empty, releases, drops, fills, perform, perform_all, act_all,
  Allows, AllowsAll, empty, Refines,
}
use teploy_sandbox.Run.Cache.Shelf.Refinement.{perform_all-Refines}
use teploy_sandbox.Run.Cache.Sweep.{
  Candidate, total_size, is_repo_key, used_at, gather, sum_sizes, sweep,
}
use teploy_sandbox.Run.Cache.Sweep.Found.{Gathered}
use teploy_sandbox.Run.Cache.Sweep.Evict.{IsSorted, Evicts, sweep-Evicts}

instance abbrev caseless : CaseTable
caseless = record { lower_beyond_ascii = λ c. c }

-- In place of SHA-256, a code that tells all texts apart and has no line end.
instance abbrev shifted : Digest
shifted = record { hex = map (λ c. c + 11) }

abbrev quiet : Disk
quiet = record {
  fault = λ path. none;
  hidden = λ path. false;
  merge = λ old node. some node;
  through = λ target. err not_found;
  removes = λ path. true;
  writes = λ path. true;
}

quiet-Quiet : Quiet quiet
unfolding Quiet
quiet-Quiet = (λ path. refl, λ path. refl, λ path. refl, λ path. refl)

map_shift-injective : (s t : Text) → map (λ c. c + 11) s ≡ map (λ c. c + 11) t → s ≡ t
map_shift-injective [] [] e = refl
map_shift-injective [] (d ∷ t) e = absurd (cc)
map_shift-injective (c ∷ s) [] e = absurd (cc)
map_shift-injective (c ∷ s) (d ∷ t) e =
    let first : c + 11 ≡ d + 11 = cc in
    let same : c ≡ d = omega (arith, first) in
    let rest = map_shift-injective s t (cc) in λ i. same i ∷ rest i

map_shift-line : (t : Text) → contains b'\n' (map (λ c. c + 11) t) ≡ false
unfolding contains
map_shift-line [] = refl
map_shift-line (c ∷ t) = ground (arith, map_shift-line t)

shifted-IsDigest : IsDigest shifted
unfolding IsDigest
shifted-IsDigest = (map_shift-injective, map_shift-line)

abbrev slug : Text
slug = codes "acme/app"

abbrev id_1 : Text
id_1 = codes "R1"

abbrev id_2 : Text
id_2 = codes "R2"

abbrev gen_1 : Text
gen_1 = codes "g-1"

abbrev gen_2 : Text
gen_2 = codes "g-2"

abbrev clone : Tree
clone = (codes "go.mod", regular 420 (codes "module m")) ∷ []

abbrev new_store : Store
new_store = record { repos = []; volumes = []; in_use = [] }

abbrev new_shelf : Shelf
new_shelf = record { templates = λ slug. none; volumes = λ name. none }

-- A run sets its repository up and commits it, a second run boots from it, the first one ends, and
-- the template is dropped.
abbrev go_hash : Text × Text
go_hash = (
  shifted.hex (codes "dir .\ngo.mod " ++ shifted.hex (codes "module m") ++ codes "\n"),
  codes ".",
)

abbrev calls : List ((Text × Text) × Op)
calls =
    (go_hash, boots_empty id_1)
    ∷ (go_hash, fills id_1 clone)
    ∷ (go_hash, commits id_1 slug gen_1 7)
    ∷ (go_hash, boots id_2 slug 8)
    ∷ (go_hash, releases id_1)
    ∷ (go_hash, drops slug)
    ∷ []

calls-AllowsAll : AllowsAll quiet (λ mf. 100) calls new_store
unfolding AllowsAll Allows perform run_name to_lower lower_rune lookup insert cold_volume put_volume
    Distinct text_eq generation repo_at is_gen_name volume_hash lock_hash_of detect_repo_dir
    has_lockfile file_in file_exists lock_lines read_lockfile slug_key commit publish commit_copy
    make_repo change_entries mark unmark marks_on run_path gen_path repo_path copy_tree copy_walk
    place_node is_special erase write_manifest with_repo clean_generations current_gen
    manifest_from_dir document_at delete_superseded clean_entries clean_entry busy_at
    touch_last_used starts remove_gen
calls-AllowsAll = (
  refl,
  (
    tt,
    (
      (
        (
          clone,
          record {
            quiet = quiet-Quiet;
            volume = refl;
            distinct = (refl, tt);
            fresh = refl;
            shape = refl;
            named = refl;
          },
        ),
        refl,
      ),
      (refl, (tt, (tt, tt))),
    ),
  ),
)

new_store-Refines : Refines new_store new_shelf
unfolding manifest document_at repo_at lookup marks_on
new_store-Refines = record {
  templates = λ slug. empty refl refl;
  volumes = λ name. refl;
  idle = λ dir. refl;
}

perform_all-Refines_example :
    Refines
      (perform_all quiet (λ mf. 100) calls new_store)
      (act_all quiet (λ mf. 100) calls new_shelf)
perform_all-Refines_example =
    perform_all-Refines quiet (λ mf. 100) calls new_store new_shelf shifted-IsDigest quiet-Quiet
      calls-AllowsAll new_store-Refines

-- While a run boots, another commit supersedes the generation that its first attempt is about to
-- copy.
abbrev template : Store
template = record {
  repos =
      (
        slug_key slug,
        record {
          manifest = some (holds (committed slug [] (codes ".") gen_1 7));
          entries = (gen_1, clone) ∷ [];
          loose_bytes = 100;
          last_used = none;
        },
      )
      ∷ [];
  volumes = [];
  in_use = [];
}

-- Others drop the template before an attempt copies it.
abbrev dropping : Others
dropping = record {
  before = λ n s. record s { repos = [] };
  during = λ n s. s;
  removal = λ n path. none;
}

dropping-Spares : Spares dropping (run_name id_1)
unfolding Spares
dropping-Spares = (λ n s. refl, λ n s. refl)

alone-Spares : Spares alone (run_name id_1)
unfolding Spares
alone-Spares = (λ n s. refl, λ n s. refl)

alone-KeepsSingle : KeepsSingle alone
unfolding KeepsSingle
alone-KeepsSingle = (λ n s h. h, λ n s h. h)

clone-Distinct : Distinct clone
unfolding Distinct lookup
clone-Distinct = (refl, tt)

template-IsSingle : IsSingle template
unfolding IsSingle generation repo_at lookup
template-IsSingle = λ key gen tree found. elim (Bool-cases (text_eq (slug_key slug) key)) [
  | inr other ↦ absurd (ground (arith, found, other))
  | inl same ↦ elim (Bool-cases (text_eq gen_1 gen)) [
    | inr other ↦ absurd (ground (arith, found, same, other))
    | inl named ↦
        let here : clone ≡ tree = ground (arith, found, same, named) in
        subst Distinct here clone-Distinct
  ]
]

boot-complete_or_cold_example :
    Outcome quiet alone slug (run_name id_1) (boot quiet alone id_1 slug 8 template)
unfolding lookup
boot-complete_or_cold_example =
    boot-complete_or_cold quiet alone id_1 slug 8 template refl alone-Spares alone-KeepsSingle
      template-IsSingle refl

-- Others remove a file of the template from under the first attempt: the second copies it whole.
abbrev removing : Others
removing = record {
  before = λ n s. s;
  during = λ n s. s;
  removal = λ n path. if n == 2 then some midway else none;
}

retried :
    (boot quiet removing id_1 slug 8 template).0
    ≡ ok (record {
      dir = run_path (run_name id_1);
      template = some (committed slug [] (codes ".") gen_1 7);
    })
unfolding boot boot_attempts manifest document_at repo_at lookup generation copy_tree copy_walk
    place_node is_special is_gen_name remove_volume put_volume mark unmark marks_on text_eq slug_key
    gen_path repo_path committed cold_volume run_name insert erase to_lower
retried = refl

-- Others remove the file before the walk reads its directory: the boot succeeds without it.
abbrev clearing : Others
clearing = record { before = λ n s. s; during = λ n s. s; removal = λ n path. some unseen }

missed : lookup (run_name id_1) (boot quiet clearing id_1 slug 8 template).1.volumes ≡ some []
unfolding boot boot_attempts manifest document_at repo_at lookup generation copy_tree copy_walk
    place_node is_special is_gen_name remove_volume put_volume mark unmark marks_on text_eq slug_key
    gen_path repo_path committed cold_volume run_name insert erase touch_last_used with_repo
    to_lower
missed = refl

-- The clone of a second run, one level down.
abbrev nested : Tree
nested = (codes "app", directory 493) ∷ (codes "app/go.mod", regular 420 (codes "module m")) ∷ []

abbrev nested_hash : Text
nested_hash = shifted.hex (codes "dir app\ngo.mod " ++ shifted.hex (codes "module m") ++ codes "\n")

lock_hash-equal_iff_example : (go_hash.0 ≡ nested_hash) ↔ (
    (codes "." ≡ codes "app")
    × SameFiles quiet clone (codes ".") quiet nested (codes "app") lockfiles)
unfolding lock_hash_of detect_repo_dir has_lockfile file_in file_exists candidates is_candidate
    is_dir_name lock_lines read_lockfile lookup text_eq
lock_hash-equal_iff_example =
    lock_hash-equal_iff quiet quiet clone nested go_hash.0 nested_hash (codes ".") (codes "app")
      shifted-IsDigest refl refl

-- A cleanup has read `gen_1` as the current generation, and another commit has copied `gen_2`.
abbrev overtaken : Store
overtaken = record {
  repos =
      (
        slug_key slug,
        record {
          manifest = some (holds (committed slug [] (codes ".") gen_1 7));
          entries = (gen_1, clone) ∷ (gen_2, clone) ∷ [];
          loose_bytes = 100;
          last_used = none;
        },
      )
      ∷ [];
  volumes = [];
  in_use = (gen_path (slug_key slug) gen_2, 1) ∷ [];
}

abbrev newer : WarmManifest
newer = record { repo = slug; lock_hash = []; repo_dir = codes "."; gen = gen_2; created_at = 9 }

overtaken-IsOvertaken : IsOvertaken slug newer (committed slug [] (codes ".") gen_1 7) overtaken
unfolding IsWellFormed manifest document_at repo_at generation lookup committed is_gen_name slug_key
    text_eq marks_on gen_path repo_path
overtaken-IsOvertaken = record {
  read = refl;
  other = refl;
  formed = (refl, refl);
  marked = refl;
  fresh = refl;
}

-- The cleanup of the one commit, overtaken by the other.
abbrev cleaned : Store
cleaned = record {
  repos =
      (
        slug_key slug,
        record {
          manifest = some (holds newer);
          entries = (gen_1, clone) ∷ [];
          loose_bytes = 100;
          last_used = none;
        },
      )
      ∷ [];
  volumes = [];
  in_use = [];
}

overtaken_clean-loses_template_example :
    IsDangling slug newer cleaned
    × ((boot quiet alone id_1 slug 10 cleaned).0
        ≡ ok (record { dir = run_path (run_name id_1); template = none }))
unfolding overtaken_clean write_manifest repo_at with_repo lookup insert erase text_eq slug_key
    gen_path repo_path unmark marks_on current_gen manifest_from_dir document_at committed
    delete_superseded clean_entries clean_entry is_gen_name starts busy_at rename_gen generation
    change_entries remove_gen
overtaken_clean-loses_template_example =
    overtaken_clean-loses_template quiet (λ mf. 100) id_1 slug newer
      (committed slug [] (codes ".") gen_1 7) 10 overtaken cleaned quiet-Quiet overtaken-IsOvertaken
      refl

abbrev key_1 : Text
key_1 = codes "0000000000000000000000000000000000000000000000000000000000000001"

abbrev key_2 : Text
key_2 = codes "0000000000000000000000000000000000000000000000000000000000000002"

abbrev used : ℕ → Repo
used time = record {
  manifest = none;
  entries = (gen_1, clone) ∷ [];
  loose_bytes = 100;
  last_used = some time;
}

-- Two templates of 108 bytes, of which the second was used longer ago.
abbrev full : Store
full = record { repos = (key_1, used 20) ∷ (key_2, used 10) ∷ []; volumes = []; in_use = [] }

abbrev both : List Candidate
both =
    record { key = key_1; last_used = 20; size = 108 }
    ∷ record { key = key_2; last_used = 10; size = 108 }
    ∷ []

sweep-Evicts_example :
    Gathered full.repos both
    × ((order : List Candidate) × Perm order both
        × IsSorted order
        × Evicts 150
            (total_size full.volumes + sum_sizes both)
            order
            full
            (sweep quiet (λ dir. false) (pos 150) full))
unfolding gather is_repo_key used_at total_size dir_size node_size sum_sizes byte_length
sweep-Evicts_example =
    sweep-Evicts quiet (λ dir. false) 150 both full (λ path. refl) (omega arith) refl (omega arith)
