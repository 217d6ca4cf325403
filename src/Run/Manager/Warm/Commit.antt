-- ===== src/Run/Manager/Warm/Commit.antt =====
-- A run that is destroyed while CommitWarm copies its volume (manager.go: CommitWarm, Destroy;
-- cache.go: Release).
use teploy_sandbox.Prelude.{
  ◌≡◌, refl, sym, ap, ◌∙◌, inl, inr, true, false, none, some, arith, if◌then◌else◌, Text, is_empty,
  text_eq_refl, CaseTable, lookup, insert, erase, lookup-erase, lookup-insert_self, Bool-cases,
  Option-cases, ok, Result-cases,
}
use teploy_sandbox.Run.Types.{Run}
use teploy_sandbox.Run.Manager.Request.{Config}
use teploy_sandbox.Run.Manager.World.{World, without_member, Answers, release, remove_container}
use teploy_sandbox.Run.Manager.World.Effects.{
  releases_volume, release_warm-effect, close_egress-effect,
}
use teploy_sandbox.Run.Manager.Destroy.{get, destroy, destroy_end}
use teploy_sandbox.Run.Manager.Warm.{CacheAnswers, warm_run, commit_slug, commit_warm}

-- A run that CommitWarm goes on with is tracked and has a volume, on a daemon with a cache store.
warm_run-ok :
    (config : Config) (id : Text) (w : World) (run : Run)
    → warm_run config id w ≡ ok run
    → (config.has_cache ≡ true) × (lookup id w.runs ≡ some run) × (is_empty run.cache_dir ≡ false)
unfolding warm_run get
warm_run-ok config id w run h = elim (Bool-cases config.has_cache) [
  | inr e ↦ absurd (ground (arith, h, e))
  | inl e ↦ elim (Option-cases (lookup id w.runs)) [
    | inl f ↦ absurd (ground (arith, h, e, f))
    | inr (tracked, f) ↦ elim (Bool-cases (is_empty tracked.cache_dir)) [
      | inl g ↦ absurd (ground (arith, h, e, f, g))
      | inr g ↦
          let same : tracked ≡ run = ground (arith, h, e, f, g) in
          (e, f ∙ ap some same, ap (λ r. is_empty r.cache_dir) (sym same) ∙ g)
    ]
  ]
]

-- What a Destroy that can remove the container leaves.
destroy-gone :
    (config : Config) (a : Answers) (id : Text) (run : Run) (w : World)
    → lookup id w.runs ≡ some run
    → a.remove run.container_id ≡ true
    → (destroy config a id w).1 ≡ record w {
      runs = erase id w.runs;
      containers = without_member run.container_id w.containers;
      volumes = if releases_volume config a run then without_member run.id w.volumes else w.volumes;
      proxies = if config.has_egress then without_member id w.proxies else w.proxies;
    }
unfolding destroy destroy_end remove_container
destroy-gone config a id run w known gone =
    let untracked : World = record w {
      runs = erase id w.runs;
      containers = without_member run.container_id w.containers;
    } in
    rw (known, destroy)
      (rw (gone, destroy_end, remove_container)
        (rw (release_warm-effect config a run untracked) (
          close_egress-effect config id (record untracked {
            volumes =
                if releases_volume config a run then without_member run.id w.volumes else w.volumes;
          }))))

-- What a Destroy that cannot remove the container leaves.
destroy-stays :
    (config : Config) (a : Answers) (id : Text) (run : Run) (w : World)
    → lookup id w.runs ≡ some run
    → a.remove run.container_id ≡ false
    → (destroy config a id w).1 ≡ record w { runs = insert id run (erase id w.runs) }
unfolding destroy destroy_end remove_container
destroy-stays config a id run w known stays =
    rw (known, destroy) (rw (stays, destroy_end, remove_container) refl)

module _ ⦃u : CaseTable⦄ (config : Config) (a : Answers) (c : CacheAnswers) (id repo : Text)
    (others : World → World) (w : World) where
  -- What a commit that has got as far as copying makes of what the others leave.
  commit_warm-settled :
      (run : Run) (slug : Text)
      → warm_run config id w ≡ ok run
      → commit_slug run repo ≡ ok slug
      → (lookup id (others w).runs ≡ none
          → (commit_warm config a c id repo others w).1 ≡ release a id (others w))
        × ((run' : Run)
            → lookup id (others w).runs ≡ some run'
            → (commit_warm config a c id repo others w).1 ≡ others w)
  unfolding commit_warm get
  commit_warm-settled run slug h k = elim (Result-cases (c.commit id slug)) [
    | inl (e, failed) ↦
        rw (h, commit_warm)
          (rw (k, commit_warm)
            (rw (failed, commit_warm)
              (λ gone. rw (gone, get) refl, λ run' known. rw (known, get) refl)))
    | inr (mf, copied) ↦
        rw (h, commit_warm)
          (rw (k, commit_warm)
            (rw (copied, commit_warm)
              (λ gone. rw (gone, get) refl, λ run' known. rw (known, get) refl)))
  ]

module _ ⦃u : CaseTable⦄ (config : Config) (a busy : Answers) (c : CacheAnswers) (id repo : Text)
    (w : World) where
  -- A run that is destroyed while CommitWarm copies its volume, so that Release finds the volume in
  -- use, comes to the same as one that is destroyed with no commit under way: the same runs are
  -- tracked, and the same containers, volumes and proxies are left, whether the container can be
  -- removed or not and whether the copy succeeds or not. The volume is in no other use, and the run
  -- is tracked under its own id.
  pub commit_warm-destroy :
      (run : Run) (slug : Text)
      → warm_run config id w ≡ ok run
      → commit_slug run repo ≡ ok slug
      → run.id ≡ id
      → busy.volume_in_use id ≡ true
      → a.volume_in_use id ≡ false
      → busy.remove run.container_id ≡ a.remove run.container_id
      → (commit_warm config a c id repo (λ v. (destroy config busy id v).1) w).1
        ≡ (destroy config a id w).1
  unfolding release releases_volume
  commit_warm-destroy run slug h k own held free same =
      let (cached, known, has_dir) = warm_run-ok config id w run h in
      let others : World → World = λ v. (destroy config busy id v).1 in
      let settled = commit_warm-settled config a c id repo others w run slug h k in
      elim (Bool-cases (a.remove run.container_id)) [
        | inr stays ↦
            let kept = destroy-stays config busy id run w known (same ∙ stays) in
            let back : lookup id (others w).runs ≡ some run =
              ap (λ v. lookup id v.runs) kept ∙ lookup-insert_self id run (erase id w.runs) in
            settled.1 run back ∙ kept ∙ sym (destroy-stays config a id run w known stays)
        | inl gone ↦
            let left = destroy-gone config busy id run w known (same ∙ gone) in
            let untracked : lookup id (others w).runs ≡ none =
              ap (λ v. lookup id v.runs) left
              ∙ rw (lookup-erase id id w.runs, text_eq_refl id) refl in
            let in_use : busy.volume_in_use run.id ≡ true = ap busy.volume_in_use own ∙ held in
            let idle : a.volume_in_use run.id ≡ false = ap a.volume_in_use own ∙ free in
            let spared : releases_volume config busy run ≡ false = ground (arith, in_use) in
            let returned : releases_volume config a run ≡ true =
              ground (arith, idle, cached, has_dir) in
            settled.0 untracked
            ∙ ap (release a id) left
            ∙ rw (free, spared, returned, own, release) refl
            ∙ sym (destroy-gone config a id run w known gone)
      ]
