-- ===== src/Run/Manager/Examples/Tracked.antt =====
-- The theorems on runs that are tracked at concrete worlds.
use teploy_sandbox.Prelude.{
  ℕ, ◌≡◌, refl, Bool, true, false, none, some, [], ◌∷◌, arith, length, any, Text, codes, text_eq,
  text_eq_refl, starts, to_lower, lookup, ℤ, ok, err, not_found,
}
use teploy_sandbox.Run.Types.{Run}
use teploy_sandbox.Run.Manager.World.{with_member, World, Answers}
use teploy_sandbox.Run.Manager.Destroy.{destroy, destroy_begin, destroy_end}
use teploy_sandbox.Run.Manager.Destroy.Removed.{Destroyed, Retained, destroy_lem}
use teploy_sandbox.Run.Lease.{acquire_lease}
use teploy_sandbox.Run.Manager.Destroy.Restored.{finishing, destroy_forgets_ends}
use teploy_sandbox.Run.Manager.Reap.{due_runs, reap}
use teploy_sandbox.Run.Manager.Reap.Expired.{
  Distinct, spared, left_of, ends_container, ends_volume, ends_proxy, reap_lem, reap_untracks,
}
use teploy_sandbox.Run.Manager.Snapshots.{ImageAnswers, snapshot, delete_snapshot}
use teploy_sandbox.Run.Manager.Destroy.{get}
use teploy_sandbox.Run.Manager.Warm.{CacheAnswers, warm_run, commit_slug, commit_warm}
use teploy_sandbox.Run.Manager.Warm.Commit.{commit_warm-destroy}
use teploy_sandbox.Run.Manager.Examples.{id_1, config, answers, run_1, caseless}

-- A tracked run in a world that is written out.
abbrev tracked : ℕ → World
tracked execs = record {
  runs = (id_1, record (run_1 500) { execs = execs }) ∷ [];
  containers = λ c. text_eq (codes "c1") c;
  volumes = λ b. text_eq id_1 b;
  proxies = λ b. text_eq id_1 b;
}

abbrev run_2 : ℕ → Run
run_2 execs = record (run_1 500) { execs = execs }

found : (execs : ℕ) → lookup id_1 (tracked execs).runs ≡ some (run_2 execs)
unfolding lookup text_eq
found execs = refl

destroy_lem_example :
    let r = destroy config answers id_1 (tracked 0) in
    (answers.remove (codes "c1") ≡ true
      → Destroyed config answers id_1 (run_2 0) (tracked 0) r.0 r.1)
    × (answers.remove (codes "c1") ≡ false
        → Retained config answers id_1 (run_2 0) (tracked 0) r.0 r.1)
destroy_lem_example = destroy_lem config answers id_1 (run_2 0) (tracked 0) (found 0)

-- A daemon that cannot remove containers.
abbrev stuck : Answers
stuck = record answers { remove = λ container. false }

destroy_forgets_ends_example :
    let v =
      (destroy_end config stuck id_1
        (run_2 1)
        (finishing 1 id_1 (destroy_begin id_1 (tracked 1)).1)).1 in
    ((destroy_begin id_1 (tracked 1)).0 ≡ ok (run_2 1))
    × (finishing 1 id_1 (destroy_begin id_1 (tracked 1)).1 ≡ (destroy_begin id_1 (tracked 1)).1)
    × (lookup id_1 v.runs ≡ some (run_2 1))
    × ((owner : Text) (ttl : ℤ) (now : ℕ) (g : ℕ × ℕ)
        → ¬ ((acquire_lease v.runs id_1 owner ttl now).0 ≡ ok g))
destroy_forgets_ends_example =
    destroy_forgets_ends config stuck id_1 (run_2 1) (tracked 1) (found 1) (omega arith) refl

distinct : Distinct (tracked 0).runs
unfolding Distinct lookup
distinct = (refl, tt)

reap_lem_example :
    let due = due_runs 1000 (tracked 0).runs in
    let (count, v) = reap config answers 1000 (tracked 0) in
    (count ≡ length due)
    × ((key : Text) → lookup key v.runs ≡ spared 1000 (lookup key (tracked 0).runs))
    × ((c : Text)
        → v.containers c ≡ left_of (any (ends_container answers c) due) ((tracked 0).containers c))
    × ((b : Text)
        → v.volumes b ≡ left_of (any (ends_volume config answers b) due) ((tracked 0).volumes b))
    × ((b : Text) → v.proxies b ≡ left_of (any (ends_proxy config b) due) ((tracked 0).proxies b))
reap_lem_example = reap_lem config answers 1000 (tracked 0) distinct

reap_untracks_example :
    let v = (reap config stuck 1000 (tracked 0)).1 in
    (lookup id_1 v.runs ≡ none) × (v.containers (codes "c1") ≡ true)
reap_untracks_example =
    reap_untracks config stuck 1000 (tracked 0) id_1 (run_2 0) distinct (found 0) (omega arith) refl
      (text_eq_refl (codes "c1"))

-- The run's snapshot.
abbrev images : Text → Bool
images image = text_eq (codes "alpine") image

abbrev image_answers : ImageAnswers
image_answers = record { snapshot = λ container path ref. true; remove_image = λ ref. true }

taken :
    snapshot image_answers (codes "01J") id_1 (tracked 0) images
    ≡ (ok (codes "teploy-sbx-snap:01j"), with_member (codes "teploy-sbx-snap:01j") images)
unfolding snapshot lookup text_eq to_lower
taken = refl

absent_image : images (codes "teploy-sbx-snap:01j") ≡ false
unfolding text_eq
absent_image = refl

deleted :
    (delete_snapshot image_answers (codes "teploy-sbx-snap:1") (λ image. true)).1
      (codes "teploy-sbx-snap:1")
    ≡ false
unfolding delete_snapshot starts text_eq
deleted = refl

-- What the cache store answers to a commit.
abbrev cache_answers : CacheAnswers
cache_answers = record {
  commit = λ id slug. ok (record {
    repo = slug;
    lock_hash = codes "h";
    repo_dir = [];
    gen = codes "g-1";
    created_at = 0;
  });
  hash = λ id. ok (codes "h", []);
  manifest = λ slug. err not_found;
  drop = λ slug. ok tt;
}

warm : warm_run config id_1 (tracked 0) ≡ ok (run_2 0)
unfolding warm_run lookup text_eq get
warm = refl

own_slug : commit_slug (run_2 0) [] ≡ ok (codes "org/app")
unfolding commit_slug
own_slug = refl

-- What the daemon answers while the volume is copied.
abbrev copying : Answers
copying = record answers { volume_in_use = λ id. true }

commit_warm-destroy_example :
    (commit_warm config answers cache_answers id_1 []
      (λ v. (destroy config copying id_1 v).1)
      (tracked 0)).1
    ≡ (destroy config answers id_1 (tracked 0)).1
commit_warm-destroy_example =
    commit_warm-destroy config answers copying cache_answers id_1 [] (tracked 0) (run_2 0)
      (codes "org/app") warm own_slug refl refl refl refl
