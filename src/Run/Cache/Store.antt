-- ===== src/Run/Cache/Store.antt =====
-- The store's state and its in-use marks, and the reading of manifests (cache.go: CacheStore,
-- slugDir, runDir, mark, unmark, busy, busyUnder, Manifest, manifestFromDir, touchLastUsed). Paths
-- are written from the store's root.
pub mod Marks
use teploy_sandbox.Prelude.{
  ℕ, ◌+◌, ◌-◌, ◌/◌, Bool, false, not, ◌&&◌, ◌||◌, Option, none, some, [], ◌∷◌, ◌++◌, ltb, leb, ◌==◌,
  if◌then◌else◌, all, any, Text, codes, is_empty, starts, Table, lookup, insert, erase, Result, ok,
  err, not_found, bad_request, internal,
}
use teploy_sandbox.Run.Types.{WarmManifest}
use teploy_sandbox.Run.Cache.Tree.{Tree}

-- What manifest.json holds: a document that cannot be read, one that is not JSON, or a manifest.
pub data Document : Type 0 where
  unreadable garbled : Document
  holds : WarmManifest → Document

-- A slug's directory: its manifest, the directories in it by their names, the bytes of the files
-- that lie directly in it, and the time of its `.last-used`.
pub record Repo : Type 0 where
  pub manifest : Option Document
  pub entries : Table Tree
  pub loose_bytes : ℕ
  pub last_used : Option ℕ

-- `repos` is <root>/repos by directory name, `volumes` is <root>/runs by directory name, and
-- `in_use` is CacheStore.inUse.
pub record Store : Type 0 where
  pub repos : Table Repo
  pub volumes : Table Tree
  pub in_use : Table ℕ

-- The hexadecimal SHA-256 of a text.
pub record Digest : Type 0 where
  pub hex : Text → Text

-- slugDir, by its last element.
unfoldable pub slug_key : ⦃d : Digest⦄ → Text → Text
slug_key ⦃d⦄ slug = d.hex slug

-- `filepath.Join(c.slugDir(slug), gen)`.
unfoldable pub repo_path : Text → Text
repo_path key = codes "repos/" ++ key

unfoldable pub gen_path : Text → Text → Text
unfolding repo_path
gen_path key gen = repo_path key ++ (b'/' ∷ gen)

unfoldable pub run_path : Text → Text
run_path name = codes "runs/" ++ name

-- `c.inUse[dir]`.
unfoldable pub marks_on : Text → Store → ℕ
marks_on dir s = elim (lookup dir s.in_use) [ none ↦ 0 | some n ↦ n ]

-- CacheStore.mark.
unfoldable pub mark : Text → Store → Store
unfolding marks_on
mark dir s = record s { in_use = insert dir (marks_on dir s + 1) s.in_use }

-- CacheStore.unmark.
unfoldable pub unmark : Text → Store → Store
unfolding marks_on
unmark dir s =
    if leb (marks_on dir s) 1
    then record s { in_use = erase dir s.in_use }
    else record s { in_use = insert dir (marks_on dir s - 1) s.in_use }

-- CacheStore.busy.
unfoldable pub busy_at : Text → Store → Bool
unfolding marks_on
busy_at dir s = ltb 0 (marks_on dir s)

-- CacheStore.busyUnder.
unfoldable pub busy_under : Text → Store → Bool
busy_under dir s = any (λ (entry : Text × ℕ). starts (dir ++ codes "/") entry.0) s.in_use

-- genShape.
unfoldable pub is_gen_name : Text → Bool
is_gen_name [] = false
is_gen_name (g ∷ []) = false
is_gen_name (g ∷ dash ∷ rest) =
    g == b'g'
    && dash == b'-'
    && not (is_empty rest)
    && all (λ c. (leb b'0' c && leb c b'9') || (leb b'a' c && leb c b'z')) rest

-- A slug's directory.
unfoldable pub repo_at : Text → Store → Option Repo
repo_at key s = lookup key s.repos

unfoldable pub document_at : Text → Store → Option Document
unfolding repo_at
document_at key s = elim (repo_at key s) [ none ↦ none | some repo ↦ repo.manifest ]

-- A directory beside a slug's manifest.
unfoldable pub generation : Text → Text → Store → Option Tree
unfolding repo_at
generation key gen s = elim (repo_at key s) [ none ↦ none | some repo ↦ lookup gen repo.entries ]

-- CacheStore.Manifest.
unfoldable pub manifest : ⦃d : Digest⦄ → Text → Store → Result WarmManifest
unfolding document_at is_gen_name slug_key
manifest slug s = elim (document_at (slug_key slug) s) [
  | none ↦ err not_found
  | some unreadable ↦ err internal
  | some garbled ↦ err bad_request
  | some (holds mf) ↦
      if is_empty mf.repo || not (is_gen_name mf.gen) then err bad_request else ok mf
]

-- CacheStore.manifestFromDir.
unfoldable pub manifest_from_dir : Text → Store → Option WarmManifest
unfolding document_at
manifest_from_dir key s = elim (document_at key s) [
  | none ↦ none
  | some unreadable ↦ none
  | some garbled ↦ none
  | some (holds mf) ↦ some mf
]

-- The state after a change of a slug's directory.
unfoldable pub with_repo : Text → Repo → Store → Store
with_repo key repo s = record s { repos = insert key repo s.repos }

-- touchLastUsed, which is taken to succeed where the directory exists.
unfoldable pub touch_last_used : Text → ℕ → Store → Store
unfolding repo_at with_repo
touch_last_used key now s = elim (repo_at key s) [
  | none ↦ s
  | some repo ↦ with_repo key (record repo { last_used = some now }) s
]
