-- ===== src/Run/Manager/Destroy/Restored.antt =====
-- A Destroy whose removal fails while execs of the run end (manager.go: Destroy; lease.go:
-- finishExec, AcquireLease).
use teploy_sandbox.Prelude.{
  ℕ, zero, suc, ◌<◌, ◌≡◌, refl, sym, ap, ◌∙◌, false, none, some, arith, Text, text_eq_refl, lookup,
  erase, lookup-erase, lookup-insert_self, ℤ, ok,
}
use teploy_sandbox.Run.Types.{Run, Registry}
use teploy_sandbox.Run.Lease.{finish_exec, acquire_lease}
use teploy_sandbox.Run.Lease.Grant.{acquire_lease-ok_iff}
use teploy_sandbox.Run.Manager.Request.{Config}
use teploy_sandbox.Run.Manager.World.{World, Answers, remove_container}
use teploy_sandbox.Run.Manager.Destroy.{destroy_begin, destroy_end}

-- `n` execs of the run end while its container is being removed.
pub finishing : ℕ → Text → World → World
finishing zero id w = w
finishing (suc n) id w = finishing n id (record w { runs = finish_exec w.runs id })

finish_untracked :
    (id : Text) (w : World)
    → lookup id w.runs ≡ none
    → record w { runs = finish_exec w.runs id } ≡ w
unfolding finish_exec
finish_untracked id w h = rw (h, finish_exec) refl

finishing_untracked :
    (n : ℕ) (id : Text) (w : World) → lookup id w.runs ≡ none → finishing n id w ≡ w
unfolding finishing
finishing_untracked zero id w h = refl
finishing_untracked (suc n) id w h =
    ap (finishing n id) (finish_untracked id w h) ∙ finishing_untracked n id w h

erased : (id : Text) (m : Registry) → lookup id (erase id m) ≡ none
erased id m = lookup-erase id id m ∙ rw (text_eq_refl id) refl

begun :
    (id : Text) (run : Run) (w : World)
    → lookup id w.runs ≡ some run
    → destroy_begin id w ≡ (ok run, record w { runs = erase id w.runs })
unfolding destroy_begin
begun id run w known = rw (known, destroy_begin) refl

unchanged :
    (n : ℕ) (id : Text) (run : Run) (w : World)
    → lookup id w.runs ≡ some run
    → finishing n id (destroy_begin id w).1 ≡ (destroy_begin id w).1
unchanged n id run w known =
    rw (begun id run w known)
      (finishing_untracked n id (record w { runs = erase id w.runs }) (erased id w.runs))

restored :
    (config : Config) (a : Answers) (id : Text) (run : Run) (v : World)
    → a.remove run.container_id ≡ false
    → lookup id (destroy_end config a id run v).1.runs ≡ some run
unfolding destroy_end remove_container
restored config a id run v stays =
    rw (stays, destroy_end, remove_container) (lookup-insert_self id run v.runs)

-- The ends of the execs and writes in flight on a run, while Destroy removes its container, change
-- nothing; if then the removal fails, the run is tracked again with the old count in flight, and no
-- AcquireLease on it succeeds, though nothing is in flight.
pub destroy_forgets_ends :
    (config : Config) (a : Answers) (id : Text) (run : Run) (w : World)
    → lookup id w.runs ≡ some run
    → 0 < run.execs
    → a.remove run.container_id ≡ false
    → let v = (destroy_end config a id run (finishing run.execs id (destroy_begin id w).1)).1 in
      ((destroy_begin id w).0 ≡ ok run)
      × (finishing run.execs id (destroy_begin id w).1 ≡ (destroy_begin id w).1)
      × (lookup id v.runs ≡ some run)
      × ((owner : Text) (ttl : ℤ) (now : ℕ) (g : ℕ × ℕ)
          → ¬ ((acquire_lease v.runs id owner ttl now).0 ≡ ok g))
destroy_forgets_ends config a id run w known flying stays =
    let v = (destroy_end config a id run (finishing run.execs id (destroy_begin id w).1)).1 in
    let back : lookup id v.runs ≡ some run =
      restored config a id run (finishing run.execs id (destroy_begin id w).1) stays in
    (
      ap (λ r. r.0) (begun id run w known),
      unchanged run.execs id run w known,
      back,
      λ owner ttl now g granted.
          let (run', d, e, ready) = (acquire_lease-ok_iff v.runs id owner ttl now).0 (g, granted) in
          let same : some run ≡ some run' = sym back ∙ ready.known in
          ground (arith, same, ready.quiet, flying),
    )
