-- ===== src/Run/Manager/Reap/Expired.antt =====
-- Which runs the reaper ends (manager.go: Reap).
use teploy_sandbox.Prelude.{
  ℕ, ◌≤◌, ◌≡◌, refl, sym, ap, ◌∙◌, inl, inr, Bool, true, false, ◌&&◌, ◌||◌, Option, none, some,
  List, [], ◌∷◌, arith, leb, if◌then◌else◌, Bool-cases, length, any, Text, text_eq, text_eq_iff,
  lookup,
}
use teploy_sandbox.Run.Types.{Run, Registry}
use teploy_sandbox.Run.Manager.Request.{Config}
use teploy_sandbox.Run.Manager.World.{
  World, without_member, Answers, close_egress, remove_container,
}
use teploy_sandbox.Run.Manager.World.Effects.{
  releases_volume, release_warm-effect, close_egress-effect, remove_container-effect,
}
use teploy_sandbox.Run.Manager.Reap.{is_due, due_runs, kept_runs, reap_run, reap_runs, reap}

-- Each key stands once, as in any map.
unfoldable pub Distinct : Registry → Type 0
Distinct [] = Unit
Distinct (entry ∷ rest) = (lookup entry.0 rest ≡ none) × Distinct rest

pub spared : ℕ → Option Run → Option Run
spared now none = none
spared now (some run) = if is_due now run then none else some run

kept_runs-lookup :
    (now : ℕ) (m : Registry) (key : Text)
    → Distinct m
    → lookup key (kept_runs now m) ≡ spared now (lookup key m)
unfolding kept_runs lookup spared is_due Distinct
kept_runs-lookup now [] key d = refl
kept_runs-lookup now (entry ∷ rest) key (new, d) =
    let later = kept_runs-lookup now rest key d in
    let absent : text_eq entry.0 key ≡ true → lookup key rest ≡ none =
      λ same. ap (λ k. lookup k rest) (sym ((text_eq_iff entry.0 key).0 same)) ∙ new in
    elim (Bool-cases (is_due now entry.1)) [
      | inl due ↦ elim (Bool-cases (text_eq entry.0 key)) [
        | inl same ↦
            rw (due, kept_runs) (rw same (later ∙ rw (absent same, spared) (rw (due, spared) refl)))
        | inr other ↦ rw (due, kept_runs) (rw other later)
      ]
      | inr live ↦ elim (Bool-cases (text_eq entry.0 key)) [
        | inl same ↦ rw (live, kept_runs) (rw (same, lookup) (rw (live, spared) refl))
        | inr other ↦ rw (live, kept_runs) (rw (other, lookup) later)
      ]
    ]

-- One pass of the loop over the due runs.
after_run : Config → Answers → Run → World → World
after_run config a run w = record w {
  containers =
      if a.remove run.container_id
      then without_member run.container_id w.containers
      else w.containers;
  volumes = if releases_volume config a run then without_member run.id w.volumes else w.volumes;
  proxies = if config.has_egress then without_member run.id w.proxies else w.proxies;
}

reap_run-effect :
    (config : Config) (a : Answers) (run : Run) (w : World)
    → reap_run config a run w ≡ after_run config a run w
unfolding reap_run after_run
reap_run-effect config a run w =
    ap (λ v. remove_container a run.container_id (close_egress config run.id v))
      (release_warm-effect config a run w)
    ∙ ap (remove_container a run.container_id) (close_egress-effect config run.id _)
    ∙ remove_container-effect a run.container_id _

reap_run-runs :
    (config : Config) (a : Answers) (run : Run) (w : World)
    → (reap_run config a run w).runs ≡ w.runs
unfolding after_run
reap_run-runs config a run w = ap (λ v. v.runs) (reap_run-effect config a run w)

reap_runs-runs :
    (config : Config) (a : Answers) (runs : List Run) (w : World)
    → (reap_runs config a runs w).runs ≡ w.runs
unfolding reap_runs
reap_runs-runs config a [] w = refl
reap_runs-runs config a (run ∷ runs) w =
    reap_runs-runs config a runs (reap_run config a run w) ∙ reap_run-runs config a run w

-- Whether the end of a run takes the container, the volume, the proxy away.
pub ends_container : Answers → Text → Run → Bool
ends_container a c run = text_eq run.container_id c && a.remove run.container_id

pub ends_volume : Config → Answers → Text → Run → Bool
ends_volume config a b run = text_eq run.id b && releases_volume config a run

pub ends_proxy : Config → Text → Run → Bool
ends_proxy config b run = text_eq run.id b && config.has_egress

-- What is left of a set when those that `ended` holds of are gone.
pub left_of : Bool → Bool → Bool
left_of ended was = if ended then false else was

left_of-step :
    (key c : Text) (removes others : Bool) (set : Text → Bool)
    → left_of others ((if removes then without_member key set else set) c)
      ≡ left_of ((text_eq key c && removes) || others) (set c)
unfolding left_of
left_of-step key c false others set = elim (Bool-cases (text_eq key c)) [
  | inl same ↦ rw same refl
  | inr other ↦ rw other refl
]
left_of-step key c true false set = elim (Bool-cases (text_eq key c)) [
  | inl same ↦ rw same refl
  | inr other ↦ rw other refl
]
left_of-step key c true true set = elim (Bool-cases (text_eq key c)) [
  | inl same ↦ rw same refl
  | inr other ↦ rw other refl
]

reap_runs-containers :
    (config : Config) (a : Answers) (runs : List Run) (w : World) (c : Text)
    → (reap_runs config a runs w).containers c
      ≡ left_of (any (ends_container a c) runs) (w.containers c)
unfolding reap_runs left_of ends_container after_run
reap_runs-containers config a [] w c = refl
reap_runs-containers config a (run ∷ runs) w c =
    reap_runs-containers config a runs (reap_run config a run w) c
    ∙ ap (λ v. left_of (any (ends_container a c) runs) (v.containers c))
        (reap_run-effect config a run w)
    ∙ left_of-step run.container_id c (a.remove run.container_id) (any (ends_container a c) runs)
        w.containers

reap_runs-volumes :
    (config : Config) (a : Answers) (runs : List Run) (w : World) (b : Text)
    → (reap_runs config a runs w).volumes b
      ≡ left_of (any (ends_volume config a b) runs) (w.volumes b)
unfolding reap_runs left_of ends_volume after_run
reap_runs-volumes config a [] w b = refl
reap_runs-volumes config a (run ∷ runs) w b =
    reap_runs-volumes config a runs (reap_run config a run w) b
    ∙ ap (λ v. left_of (any (ends_volume config a b) runs) (v.volumes b))
        (reap_run-effect config a run w)
    ∙ left_of-step run.id b (releases_volume config a run) (any (ends_volume config a b) runs)
        w.volumes

reap_runs-proxies :
    (config : Config) (a : Answers) (runs : List Run) (w : World) (b : Text)
    → (reap_runs config a runs w).proxies b ≡ left_of (any (ends_proxy config b) runs) (w.proxies b)
unfolding reap_runs left_of ends_proxy after_run
reap_runs-proxies config a [] w b = refl
reap_runs-proxies config a (run ∷ runs) w b =
    reap_runs-proxies config a runs (reap_run config a run w) b
    ∙ ap (λ v. left_of (any (ends_proxy config b) runs) (v.proxies b))
        (reap_run-effect config a run w)
    ∙ left_of-step run.id b config.has_egress (any (ends_proxy config b) runs) w.proxies

-- Reap ends exactly the runs whose expiry is not after now, and says how many: afterwards those are
-- not tracked and the others are as before. What is gone is the containers of those runs that can
-- be removed, their volumes that are not in use, and their proxies; all else stays. The registry
-- has each key once.
pub reap_lem :
    (config : Config) (a : Answers) (now : ℕ) (w : World)
    → Distinct w.runs
    → let due = due_runs now w.runs in
      let (count, v) = reap config a now w in
      (count ≡ length due)
      × ((key : Text) → lookup key v.runs ≡ spared now (lookup key w.runs))
      × ((c : Text) → v.containers c ≡ left_of (any (ends_container a c) due) (w.containers c))
      × ((b : Text) → v.volumes b ≡ left_of (any (ends_volume config a b) due) (w.volumes b))
      × ((b : Text) → v.proxies b ≡ left_of (any (ends_proxy config b) due) (w.proxies b))
unfolding reap
reap_lem config a now w d =
    let due = due_runs now w.runs in
    let start = record w { runs = kept_runs now w.runs } in
    (
      refl,
      λ key.
          ap (lookup key) (reap_runs-runs config a due start) ∙ kept_runs-lookup now w.runs key d,
      reap_runs-containers config a due start,
      reap_runs-volumes config a due start,
      reap_runs-proxies config a due start,
    )

no_removal :
    (a : Answers) (c : Text) (runs : List Run)
    → a.remove c ≡ false
    → any (ends_container a c) runs ≡ false
unfolding ends_container
no_removal a c [] h = refl
no_removal a c (run ∷ runs) h = elim (Bool-cases (text_eq run.container_id c)) [
  | inl same ↦
      rw (same, any) (rw ((text_eq_iff run.container_id c).0 same, h) (no_removal a c runs h))
  | inr other ↦ rw (other, any) (no_removal a c runs h)
]

-- A due run whose container exists and cannot be removed is not tracked after Reap, and the container
-- still exists: nothing is left that would try to remove it again. The registry has each key once.
pub reap_untracks :
    (config : Config) (a : Answers) (now : ℕ) (w : World) (key : Text) (run : Run)
    → Distinct w.runs
    → lookup key w.runs ≡ some run
    → run.expires_at ≤ now
    → a.remove run.container_id ≡ false
    → w.containers run.container_id ≡ true
    → let v = (reap config a now w).1 in
      (lookup key v.runs ≡ none) × (v.containers run.container_id ≡ true)
unfolding spared is_due left_of
reap_untracks config a now w key run d known due stays exists =
    let (count, runs, containers, volumes, proxies) = reap_lem config a now w d in
    let is_due_now : leb run.expires_at now ≡ true = ground arith in
    (
      runs key ∙ rw (known, spared) (rw is_due_now refl),
      containers run.container_id
          ∙ rw (no_removal a run.container_id (due_runs now w.runs) stays, left_of) exists,
    )
