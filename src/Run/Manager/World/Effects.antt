-- ===== src/Run/Manager/World/Effects.antt =====
-- What the calls that take back what a run owns change (manager.go: releaseWarm, closeEgress).
use teploy_sandbox.Prelude.{
  ◌≡◌, refl, inl, inr, Bool, not, ◌&&◌, if◌then◌else◌, Bool-cases, Text, is_empty,
}
use teploy_sandbox.Run.Types.{Run}
use teploy_sandbox.Run.Manager.Request.{Config}
use teploy_sandbox.Run.Manager.World.{
  World, without_member, Answers, release, close_egress, release_warm, remove_container,
}

-- Whether releaseWarm gives the volume of a run back.
unfoldable pub releases_volume : Config → Answers → Run → Bool
releases_volume config a run =
    not (is_empty run.cache_dir) && config.has_cache && not (a.volume_in_use run.id)

pub release_warm-effect :
    (config : Config) (a : Answers) (run : Run) (w : World)
    → release_warm config a run w ≡ record w {
      volumes = if releases_volume config a run then without_member run.id w.volumes else w.volumes;
    }
unfolding release_warm release releases_volume
release_warm-effect config a run w =
    elim (Bool-cases (not (is_empty run.cache_dir) && config.has_cache)) [
      | inr kept ↦ rw (kept, release_warm, releases_volume) refl
      | inl freed ↦ elim (Bool-cases (a.volume_in_use run.id)) [
        | inl used ↦
            rw (freed, release_warm, releases_volume) (rw (used, release, releases_volume) refl)
        | inr free ↦
            rw (freed, release_warm, releases_volume) (rw (free, release, releases_volume) refl)
      ]
    ]

pub close_egress-effect :
    (config : Config) (id : Text) (w : World)
    → close_egress config id w
      ≡ record w { proxies = if config.has_egress then without_member id w.proxies else w.proxies }
unfolding close_egress
close_egress-effect config id w = elim (Bool-cases config.has_egress) [
  | inl has ↦ rw (has, close_egress) refl
  | inr lacks ↦ rw (lacks, close_egress) refl
]

pub remove_container-effect :
    (a : Answers) (container : Text) (w : World)
    → remove_container a container w ≡ record w {
      containers =
          if a.remove container then without_member container w.containers else w.containers;
    }
unfolding remove_container
remove_container-effect a container w = elim (Bool-cases (a.remove container)) [
  | inl gone ↦ rw (gone, remove_container) refl
  | inr stays ↦ rw (stays, remove_container) refl
]
