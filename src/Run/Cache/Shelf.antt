-- ===== src/Run/Cache/Shelf.antt =====
-- What CacheStore of cache.go promises its clients, the manager's create, destroy, warm-commit and
-- warm-drop: a shelf with one template for each repository and one volume for each run.
pub mod Templates
pub mod Refinement
use teploy_sandbox.Prelude.{
  ℕ, ◌≡◌, Option, none, some, List, [], ◌∷◌, if◌then◌else◌, Text, text_eq, CaseTable, lookup,
  insert, ok, err, not_found,
}
use teploy_sandbox.Run.Types.{WarmManifest}
use teploy_sandbox.Run.Cache.Tree.{Tree, Disk}
use teploy_sandbox.Run.Cache.Tree.Copy.{Distinct, Quiet, ordinary}
use teploy_sandbox.Run.Cache.Store.{Store, Digest, slug_key, generation, manifest, marks_on}
use teploy_sandbox.Run.Cache.Boot.{run_name, boot, boot_empty, release_run}
use teploy_sandbox.Run.Cache.Lock.{volume_hash}
use teploy_sandbox.Run.Cache.Commit.{commit, drop}
use teploy_sandbox.Run.Cache.Commit.Race.{alone}
use teploy_sandbox.Run.Cache.Commit.Publish.{CanCommit, committed}

pub record Shelf : Type 0 where
  pub templates : Text → Option (WarmManifest × Tree)
  pub volumes : Text → Option Tree

-- One call, with the clock it reads and the name that a commit makes up. In `fills` a run changes the
-- content of its volume.
pub data Op : Type 0 where
  commits : Text → Text → Text → ℕ → Op
  boots : Text → Text → ℕ → Op
  boots_empty : Text → Op
  releases : Text → Op
  drops : Text → Op
  fills : Text → Tree → Op

abbrev pub update {ℓ} : {V : Type ℓ} → (Text → V) → Text → V → Text → V
update f key value asked = if text_eq key asked then value else f asked

-- What the volume of a new run holds.
unfoldable pub first_content : Option (WarmManifest × Tree) → Tree
first_content none = []
first_content (some (mf, tree)) = ordinary tree

module _ ⦃d : Digest⦄ ⦃u : CaseTable⦄ (disk : Disk) (size : WarmManifest → ℕ) where
  -- The call on the store.
  unfoldable pub perform : Op → Store → Store
  unfolding commit boot boot_empty release_run drop
  perform (commits id slug gen now) s = (commit disk size id slug gen now s).1
  perform (boots id slug now) s = (boot disk alone id slug now s).1
  perform (boots_empty id) s = (boot_empty disk id s).1
  perform (releases id) s = release_run disk id s
  perform (drops slug) s = (drop disk slug s).1
  perform (fills id tree) s = record s { volumes = insert (run_name id) tree s.volumes }

  -- Calls, each with what LockHash says of its volume.
  unfoldable pub perform_all : List ((Text × Text) × Op) → Store → Store
  unfolding perform
  perform_all [] s = s
  perform_all ((hash, op) ∷ ops) s = perform_all ops (perform op s)

  -- The call on the shelf. `hash` is what LockHash says of the volume of a commit.
  unfoldable pub act : Text × Text → Op → Shelf → Shelf
  unfolding committed first_content
  act (hash, dir) (commits id slug gen now) shelf = elim (shelf.volumes (run_name id)) [
    | none ↦ shelf
    | some tree ↦ record shelf {
      templates =
          update shelf.templates slug (some (committed slug hash dir gen now, ordinary tree));
    }
  ]
  act hash (boots id slug now) shelf = record shelf {
    volumes = update shelf.volumes (run_name id) (some (first_content (shelf.templates slug)));
  }
  act hash (boots_empty id) shelf = record shelf {
    volumes = update shelf.volumes (run_name id) (some []);
  }
  act hash (releases id) shelf = record shelf { volumes = update shelf.volumes (run_name id) none }
  act hash (drops slug) shelf = record shelf { templates = update shelf.templates slug none }
  act hash (fills id tree) shelf = record shelf {
    volumes = update shelf.volumes (run_name id) (some tree);
  }

  -- The calls that the manager makes: it boots a run once, under an id of its own, and a commit of a
  -- readable volume gets a fresh generation.
  unfoldable pub Allows : Text × Text → Op → Store → Type 0
  Allows hash (commits id slug gen now) s =
      ((tree : Tree) × CanCommit disk id slug gen tree s) × (volume_hash disk id s ≡ ok hash)
  Allows hash (boots id slug now) s = lookup (run_name id) s.volumes ≡ none
  Allows hash (boots_empty id) s = lookup (run_name id) s.volumes ≡ none
  Allows hash (releases id) s = Unit
  Allows hash (drops slug) s = Unit
  Allows hash (fills id tree) s = Unit

  -- Each call is allowed where it is made.
  unfoldable pub AllowsAll : List ((Text × Text) × Op) → Store → Type 0
  AllowsAll [] s = Unit
  AllowsAll ((hash, op) ∷ ops) s = Allows hash op s × AllowsAll ops (perform op s)

  unfoldable pub act_all : List ((Text × Text) × Op) → Shelf → Shelf
  unfolding act
  act_all [] shelf = shelf
  act_all ((hash, op) ∷ ops) shelf = act_all ops (act hash op shelf)

module _ ⦃d : Digest⦄ where
  -- The store has the slug's template of the shelf.
  pub data Shelved (slug : Text) (s : Store) (template : Option (WarmManifest × Tree))
      : Type 0 where
    empty : template ≡ none → manifest slug s ≡ err not_found → Shelved slug s template
    stocked :
        (mf : WarmManifest) (tree : Tree)
        → template ≡ some (mf, tree)
        → manifest slug s ≡ ok mf
        → generation (slug_key slug) mf.gen s ≡ some tree
        → Distinct tree
        → Shelved slug s template

  -- A store at rest stands for a shelf.
  pub record Refines (s : Store) (shelf : Shelf) : Type 0 where
    pub templates : (slug : Text) → Shelved slug s (shelf.templates slug)
    pub volumes : (name : Text) → lookup name s.volumes ≡ shelf.volumes name
    pub idle : (dir : Text) → marks_on dir s ≡ 0
