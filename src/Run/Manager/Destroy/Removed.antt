-- ===== src/Run/Manager/Destroy/Removed.antt =====
-- Destroy on its branches (manager.go: Destroy, DestroyAll).
use teploy_sandbox.Prelude.{
  ◌≡◌, refl, sym, ap, ◌∙◌, inl, inr, true, false, none, some, if◌then◌else◌, Bool-cases, Text,
  text_eq, text_eq_iff, lookup, insert, erase, lookup-insert, lookup-erase, Result, ok, err,
  internal,
}
use teploy_sandbox.Run.Types.{Run}
use teploy_sandbox.Run.Manager.Request.{Config}
use teploy_sandbox.Run.Manager.World.{World, without_member, Answers, remove_container}
use teploy_sandbox.Run.Manager.World.Effects.{
  releases_volume, release_warm-effect, close_egress-effect,
}
use teploy_sandbox.Run.Manager.Destroy.{destroy_end, destroy}

-- The world that a destroyed run leaves, its registry apart.
unfoldable pub Cleared : Config → Answers → Text → Run → World → World → Type 0
Cleared config a id run w v =
    (v.containers ≡ without_member run.container_id w.containers)
    × (v.volumes
        ≡ (if releases_volume config a run then without_member run.id w.volumes else w.volumes))
    × (v.proxies ≡ (if config.has_egress then without_member id w.proxies else w.proxies))

module _ (config : Config) (a : Answers) (id : Text) (run : Run) (w : World) where
  destroy_end-Cleared :
      a.remove run.container_id ≡ true
      → let r = destroy_end config a id run w in
        (r.0 ≡ ok tt) × (r.1.runs ≡ w.runs) × Cleared config a id run w r.1
  unfolding destroy_end remove_container Cleared
  destroy_end-Cleared gone =
      rw (gone, destroy_end, remove_container)
        (rw
          (release_warm-effect config a run
            (record w { containers = without_member run.container_id w.containers }))
          (rw
            (close_egress-effect config id (record w {
              containers = without_member run.container_id w.containers;
              volumes =
                  if releases_volume config a run
                  then without_member run.id w.volumes
                  else w.volumes;
            }))
            (refl, refl, (refl, refl, refl))))

module _ (config : Config) (a : Answers) (id : Text) (run : Run) (w : World) where
  -- The run is gone and every other one is tracked.
  unfoldable pub Destroyed : Result (Unit {0}) → World → Type 0
  Destroyed answer v =
      (answer ≡ ok tt)
      × ((key : Text) → lookup key v.runs ≡ (if text_eq id key then none else lookup key w.runs))
      × Cleared config a id run w v

  -- Every run is tracked with all that it owns.
  pub Retained : Result (Unit {0}) → World → Type 0
  Retained answer v =
      (answer ≡ err internal)
      × ((key : Text) → lookup key v.runs ≡ lookup key w.runs)
      × (v.containers ≡ w.containers)
      × (v.volumes ≡ w.volumes)
      × (v.proxies ≡ w.proxies)

  destroy_end-Destroyed :
      a.remove run.container_id ≡ true
      → let r = destroy_end config a id run (record w { runs = erase id w.runs }) in
        Destroyed r.0 r.1
  unfolding Destroyed Cleared
  destroy_end-Destroyed gone =
      let (answer, runs, cleared) =
        destroy_end-Cleared config a id run (record w { runs = erase id w.runs }) gone in
      (answer, λ key. ap (lookup key) runs ∙ lookup-erase id key w.runs, cleared)

  put_back :
      lookup id w.runs ≡ some run
      → (key : Text) → lookup key (insert id run (erase id w.runs)) ≡ lookup key w.runs
  put_back known key =
      lookup-insert id key run (erase id w.runs) ∙ (elim (Bool-cases (text_eq id key)) [
        | inl same ↦ rw same (sym known ∙ ap (λ k. lookup k w.runs) ((text_eq_iff id key).0 same))
        | inr other ↦ rw other (lookup-erase id key w.runs ∙ rw other refl)
      ])

  destroy_end-Retained :
      lookup id w.runs ≡ some run
      → a.remove run.container_id ≡ false
      → let r = destroy_end config a id run (record w { runs = erase id w.runs }) in
        Retained r.0 r.1
  unfolding destroy_end remove_container Retained
  destroy_end-Retained known stays =
      rw (stays, destroy_end, remove_container) (refl, put_back known, refl, refl, refl)

  -- What Destroy does to a run that is tracked. If its container can be removed, the run is no
  -- longer tracked and the other runs are; the container is gone, the volume if the run had one
  -- that is not in use, and the proxy under the run's id; no other container, volume or proxy is
  -- touched. If the container cannot be removed, Destroy reports it and every run is tracked as
  -- before, with all that it owns.
  pub destroy_lem :
      lookup id w.runs ≡ some run
      → let r = destroy config a id w in
        (a.remove run.container_id ≡ true → Destroyed r.0 r.1)
        × (a.remove run.container_id ≡ false → Retained r.0 r.1)
  unfolding destroy
  destroy_lem known = rw (known, destroy) (destroy_end-Destroyed, destroy_end-Retained known)
