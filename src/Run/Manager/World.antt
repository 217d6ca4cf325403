-- ===== src/Run/Manager/World.antt =====
-- What the manager has brought about, and how its collaborators answer. A world says which runs are
-- tracked, which containers exist, and which run ids have a private volume and a private proxy.
pub mod Effects
use teploy_sandbox.Prelude.{
  Bool, true, false, not, ◌&&◌, Option, List, if◌then◌else◌, Text, text_eq, is_empty, Result,
}
use teploy_sandbox.Run.Types.{Run, Registry}
use teploy_sandbox.Run.Manager.Request.{CreateSpec, Config}

pub record World : Type 0 where
  pub runs : Registry
  pub containers : Text → Bool
  pub volumes : Text → Bool
  pub proxies : Text → Bool

abbrev pub with_member : Text → (Text → Bool) → Text → Bool
with_member a set b = if text_eq a b then true else set b

abbrev pub without_member : Text → (Text → Bool) → Text → Bool
without_member a set b = if text_eq a b then false else set b

-- What CacheStore.Boot returns: the directory, the manifest's hash and repository, and `booted`.
pub record Booted : Type 0 where
  pub dir : Text
  pub lock_hash : Text
  pub repo_dir : Text
  pub booted : Bool

-- The answers of the interface Runtime, of CacheStore and of the interface EgressProxy to the calls
-- of one operation. `leftover` is the container that a create that fails may leave behind. A boot
-- that fails leaves no volume and an open that fails no proxy. `volume_in_use` is CacheStore's
-- in-use mark, under which Release keeps the directory.
pub record Answers : Type 0 where
  pub image_is_snapshot : Text → Result Bool
  pub boot : Text → Text → Result Booted
  pub boot_empty : Text → Result Text
  pub open_for : Text → List Text → Result Text
  pub create : CreateSpec → Result Text
  pub leftover : CreateSpec → Option Text
  pub seed_volume : Text → Text → Text → Bool
  pub remove : Text → Bool
  pub volume_in_use : Text → Bool

-- CacheStore.Release. A volume that RemoveAll fails on counts as in use here, since it stays as well.
unfoldable pub release : Answers → Text → World → World
release a id w =
    if a.volume_in_use id then w else record w { volumes = without_member id w.volumes }

-- Manager.closeEgress.
unfoldable pub close_egress : Config → Text → World → World
close_egress config id w =
    if config.has_egress then record w { proxies = without_member id w.proxies } else w

-- Manager.releaseWarm.
unfoldable pub release_warm : Config → Answers → Run → World → World
unfolding release
release_warm config a run w =
    if not (is_empty run.cache_dir) && config.has_cache then release a run.id w else w

-- Runtime.Remove: whether it succeeded, and the world after it.
unfoldable pub remove_container : Answers → Text → World → World
remove_container a container w =
    if a.remove container
    then record w { containers = without_member container w.containers }
    else w
