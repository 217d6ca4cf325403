-- ===== src/Run/Manager/Lifetime.antt =====
-- A run from its Create to its Destroy (manager.go).
use teploy_sandbox.Prelude.{
  ℕ, ◌≡◌, refl, sym, ap, ◌∙◌, inl, inr, Bool, true, false, none, some, arith, if◌then◌else◌,
  Bool-cases, Text, text_eq, text_eq_iff, CaseTable, lookup, insert, lookup-insert,
  lookup-insert_self, ok,
}
use teploy_sandbox.Run.Types.{Run}
use teploy_sandbox.Run.Manager.Request.{CreateRequest, Config, wants_volume, wants_proxy}
use teploy_sandbox.Run.Manager.Request.Checks.{Kept}
use teploy_sandbox.Run.Manager.World.{World, with_member, without_member, Answers}
use teploy_sandbox.Run.Manager.World.Effects.{releases_volume}
use teploy_sandbox.Run.Manager.Create.{create}
use teploy_sandbox.Run.Manager.Create.Undo.{Fresh, added-removed}
use teploy_sandbox.Run.Manager.Create.Stages.{Outcome}
use teploy_sandbox.Run.Manager.Create.Ends.{create-registers}
use teploy_sandbox.Run.Manager.Destroy.{destroy}
use teploy_sandbox.Run.Manager.Destroy.Removed.{Cleared, Destroyed, destroy_lem}

-- The same containers, volumes and proxies, and every key of the registry reads the same.
pub SameReads : World → World → Type 0
SameReads v w =
    ((key : Text) → lookup key v.runs ≡ lookup key w.runs)
    × ((c : Text) → v.containers c ≡ w.containers c)
    × ((b : Text) → v.volumes b ≡ w.volumes b)
    × ((b : Text) → v.proxies b ≡ w.proxies b)

-- Taking back what was added, or what was never there.
undone :
    (id : Text) (set : Text → Bool) (added removed : Bool) (b : Text)
    → set id ≡ false
    → (added ≡ true → removed ≡ true)
    → (if removed
          then without_member id (if added then with_member id set else set)
          else if added
          then with_member id set
          else set)
        b
      ≡ set b
undone id set added true b absent h = added-removed id set added b absent
undone id set false false b absent h = refl
undone id set true false b absent h = ground (arith, h refl)

read_back :
    (id key : Text) (run : Run) (w : World)
    → lookup id w.runs ≡ none
    → (if text_eq id key then none else lookup key (insert id run w.runs)) ≡ lookup key w.runs
read_back id key run w new = elim (Bool-cases (text_eq id key)) [
  | inl same ↦ rw same (sym new ∙ ap (λ k. lookup k w.runs) ((text_eq_iff id key).0 same))
  | inr other ↦ rw other (lookup-insert id key run w.runs ∙ rw other refl)
]

filled_volumes : CreateRequest → Text → World → Text → Bool
filled_volumes req id w = if wants_volume req then with_member id w.volumes else w.volumes

module _ ⦃u : CaseTable⦄ (config : Config) (a : Answers) (req : CreateRequest) (now : ℕ) (id : Text)
    (w : World) where
  -- A run that was created and then destroyed leaves no trace in the runs, the containers, the
  -- volumes and the proxies: its id is one that owns nothing and is not tracked, its volume is not
  -- in use when it is created and is a directory with a name, on a daemon with a cache store, if
  -- there is one, its container id was not taken, and its container can be removed.
  pub destroy-create :
      (run : Run) (v : World)
      → Fresh a id w
      → lookup id w.runs ≡ none
      → create config a req now id w ≡ (ok run, v)
      → w.containers run.container_id ≡ false
      → (wants_volume req ≡ true → releases_volume config a run ≡ true)
      → let r = destroy config a id v in (r.0 ≡ ok tt) × SameReads r.1 w
  unfolding Fresh Kept Outcome Destroyed Cleared SameReads filled_volumes
  destroy-create run v fresh new created unused volume =
      let (plan, kept, (filled, same_id, expires, lease, warmed)) =
        create-registers config a req now id w run v fresh created in
      let known : lookup id v.runs ≡ some run =
        ap (λ x. lookup id x.runs) filled ∙ lookup-insert_self id run w.runs in
      let (answer, runs, (containers, volumes, proxies)) =
        (destroy_lem config a id run v known).0 (fresh.4 run.container_id) in
      (
        answer,
        (
          λ key.
              runs key
              ∙ ap (λ x. if text_eq id key then none else lookup key x.runs) filled
              ∙ read_back id key run w new,
          λ c.
              ap (λ f. f c) containers
              ∙ ap (λ x. without_member run.container_id x.containers c) filled
              ∙ added-removed run.container_id w.containers true c unused,
          λ b.
              ap (λ f. f b) volumes
              ∙ ap
                  (λ x.
                    (if releases_volume config a run
                        then without_member run.id x.volumes
                        else x.volumes)
                      b)
                  filled
              ∙ ap
                  (λ k.
                    (if releases_volume config a run
                        then without_member k (filled_volumes req id w)
                        else filled_volumes req id w)
                      b)
                  same_id
              ∙ undone id w.volumes (wants_volume req) (releases_volume config a run) b fresh.0
                  volume,
          λ b.
              ap (λ f. f b) proxies
              ∙ ap (λ x. (if config.has_egress then without_member id x.proxies else x.proxies) b)
                  filled
              ∙ undone id w.proxies (wants_proxy plan) config.has_egress b fresh.1 kept.3,
        ),
      )
