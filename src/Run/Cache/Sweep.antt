-- ===== src/Run/Cache/Sweep.antt =====
-- Sweep of cache.go: the eviction of the least recently used templates. Sizes are the bytes of
-- regular files; their sums are taken to be below 2 ^ 63. The check that a template is not in use
-- and its removal are one step here.
pub mod Evict
pub mod Found
use teploy_sandbox.Prelude.{
  ℕ, ◌+◌, ◌-◌, Bool, true, false, ◌&&◌, ◌||◌, Option, none, some, List, [], ◌∷◌, ltb, leb, ◌==◌,
  if◌then◌else◌, length, all, Text, Table, erase, ℤ, pos, negsuc,
}
use teploy_sandbox.Run.Types.{WarmManifest}
use teploy_sandbox.Run.Cache.Tree.{Tree, Disk, dir_size}
use teploy_sandbox.Run.Cache.Store.{
  Repo, Document, holds, unreadable, garbled, Store, repo_path, busy_under,
}

-- `template`, by its directory's name.
pub record Candidate : Type 0 where
  pub key : Text
  pub last_used : ℕ
  pub size : ℕ

unfoldable pub total_size : Table Tree → ℕ
unfolding dir_size
total_size [] = 0
total_size (entry ∷ rest) = dir_size entry.1 + total_size rest

-- legacyKey.
unfoldable pub is_repo_key : Text → Bool
is_repo_key name =
    length name == 64 && all (λ c. (leb b'0' c && leb c b'9') || (leb b'a' c && leb c b'f')) name

-- The time of `.last-used`, else that of the manifest. The zero time is 0.
unfoldable pub used_at : Repo → ℕ
used_at repo =
    let touched = elim repo.last_used as (λ x. ℕ) [ none ↦ 0 | some time ↦ time ] in
    let created = elim repo.manifest as (λ x. ℕ) [ some (holds mf) ↦ mf.created_at | _ ↦ 0 ] in
    if touched == 0 then created else touched

-- The loop over <root>/repos. `cancelled` is `ctx.Err() != nil` as the loop comes to a directory.
unfoldable pub gather : (Text → Bool) → Table Repo → Option (List Candidate)
unfolding is_repo_key used_at total_size
gather cancelled [] = some []
gather cancelled (entry ∷ rest) = elim (is_repo_key entry.0) [
  | false ↦ gather cancelled rest
  | true ↦ elim (cancelled entry.0) [
    | true ↦ none
    | false ↦ elim (gather cancelled rest) [
      | none ↦ none
      | some found ↦ some (
          record {
            key = entry.0;
            last_used = used_at entry.1;
            size = entry.1.loose_bytes + total_size entry.1.entries;
          }
          ∷ found)
    ]
  ]
]

unfoldable pub sum_sizes : List Candidate → ℕ
sum_sizes [] = 0
sum_sizes (c ∷ rest) = c.size + sum_sizes rest

-- sort.Slice by the last use. It may order equal times in any way.
unfoldable pub place_candidate : Candidate → List Candidate → List Candidate
place_candidate c [] = c ∷ []
place_candidate c (first ∷ rest) =
    let later = place_candidate c rest in
    if ltb first.last_used c.last_used then first ∷ later else c ∷ first ∷ rest

unfoldable pub sort_candidates : List Candidate → List Candidate
unfolding place_candidate
sort_candidates [] = []
sort_candidates (c ∷ rest) = place_candidate c (sort_candidates rest)

-- What the eviction returns and leaves.
pub record Swept : Type 0 where
  pub removed : List Candidate
  pub total : ℕ
  pub store : Store

-- The loop that evicts. What other goroutines do between the look at the marks and RemoveAll is
-- left out here; what a boot that marks the template in that time makes of it is Boot's `removal`.
unfoldable pub evict : Disk → ℕ → List Candidate → ℕ → Store → Swept
evict disk max [] total s = record { removed = []; total = total; store = s }
evict disk max (c ∷ rest) total s = elim (leb total max) [
  | true ↦ record { removed = []; total = total; store = s }
  | false ↦ elim (busy_under (repo_path c.key) s) [
    | true ↦ evict disk max rest total s
    | false ↦ elim (disk.removes (repo_path c.key)) [
      | false ↦ evict disk max rest total s
      | true ↦
          let swept =
            evict disk max rest (total - c.size) (record s { repos = erase c.key s.repos }) in
          record swept { removed = c ∷ swept.removed }
    ]
  ]
]

-- CacheStore.Sweep.
unfoldable pub sweep : Disk → (Text → Bool) → ℤ → Store → Swept
unfolding gather sum_sizes sort_candidates evict
sweep disk cancelled (negsuc n) s = record { removed = []; total = 0; store = s }
sweep disk cancelled (pos max) s =
    if max == 0
    then record { removed = []; total = 0; store = s }
    else elim (gather cancelled s.repos) [
      | none ↦ record { removed = []; total = 0; store = s }
      | some found ↦
          let total = total_size s.volumes + sum_sizes found in
          if leb total max
          then record { removed = []; total = total; store = s }
          else evict disk max (sort_candidates found) total s
    ]
