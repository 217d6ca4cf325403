-- ===== src/Run/Cache/Boot/Progress.antt =====
-- Boot of cache.go against templates that are evicted, dropped or superseded under it.
use teploy_sandbox.Prelude.{ℕ, ◌≡◌, ◌≢◌, ◌⊎◌, true, some, Text, ok, err, not_found}
use teploy_sandbox.Run.Types.{WarmManifest}
use teploy_sandbox.Run.Cache.Tree.{Node, Tree, Disk, broken}
use teploy_sandbox.Run.Cache.Store.{Store, Digest, manifest}
use teploy_sandbox.Run.Cache.Boot.{Others}

-- A disk on which files can only vanish.
unfoldable pub OnlyVanishing : Disk → Type 0
OnlyVanishing disk =
    ((path : Text) → disk.fault path ≢ some broken)
    × ((old node : Node) → (merged : Node) × (disk.merge old node ≡ some merged))
    × ((path : Text) → disk.writes path ≡ true)

-- The slug has a well-formed manifest or none.
unfoldable pub Readable : ⦃d : Digest⦄ → Text → Store → Type 0
Readable slug s =
    (manifest slug s ≡ err not_found) ⊎ ((mf : WarmManifest) × (manifest slug s ≡ ok mf))

module _ ⦃d : Digest⦄ where
  -- Other goroutines keep the slug's manifest readable.
  unfoldable pub KeepsReadable : Others → Text → Type 0
  KeepsReadable others slug =
      ((n : ℕ) (s : Store) → Readable slug s → Readable slug (others.before n s))
      × ((n : ℕ) (s : Store) → Readable slug s → Readable slug (others.during n s))
