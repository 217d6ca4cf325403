-- ===== src/Run/Lease/Calls.antt =====
-- Sequences of lease calls and execs (lease.go: the methods of Manager together), and what one call
-- can change.
use teploy_sandbox.Prelude.{
  ℕ, ◌+◌, ◌-◌, ◌≡◌, refl, inl, inr, true, none, some, Text, lookup, insert, List, [], ◌∷◌, arith,
  is_empty, trim_space, add_duration, ltb, Option-cases, Bool-cases, ℤ,
}
use teploy_sandbox.Run.Types.{Run, LeaseState, LeaseCredential, Registry}
use teploy_sandbox.Run.Lease.{
  held_by_other, bad_lease_args, grant, acquire_lease, renewable, extend, renew_lease, releasable,
  release_lease, begin_exec, finish_exec,
}
use teploy_sandbox.Run.Lease.Fence.{check_fence-cases}
use teploy_sandbox.Run.Lease.Holder.{renewable_iff}

-- One call of the Manager, with its arguments and what it reads from the clock.
pub data Call : Type 0 where
  acquires : Text → Text → ℤ → ℕ → Call
  renews : Text → Text → ℕ → ℤ → ℕ → ℕ → Call
  releases : Text → Text → ℕ → Call
  begins : Text → LeaseCredential → ℕ → Call
  finishes : Text → Call

unfoldable pub step : Registry → Call → Registry
unfolding acquire_lease renew_lease release_lease begin_exec finish_exec
step m (acquires id owner ttl now) = (acquire_lease m id owner ttl now).1
step m (renews id owner generation ttl now later) =
    (renew_lease m id owner generation ttl now later).1
step m (releases id owner generation) = (release_lease m id owner generation).1
step m (begins id cred now) = (begin_exec m id cred now).1
step m (finishes id) = finish_exec m id

unfoldable pub history : Registry → List Call → Registry
unfolding step
history m [] = m
history m (c ∷ cs) = history (step m c) cs

-- The run that a call is about.
pub target : Call → Text
target (acquires id owner ttl now) = id
target (renews id owner generation ttl now later) = id
target (releases id owner generation) = id
target (begins id cred now) = id
target (finishes id) = id

-- What a lease call may make of a run.
pub data LeaseChange (run run' : Run) : Type 0 where
  granted :
      (owner : Text) (ttl : ℤ) (now : ℕ) → run' ≡ grant run owner ttl now → LeaseChange run run'
  extended :
      (owner : Text) (generation until : ℕ) (lease : LeaseState)
      → run.lease ≡ some lease
      → lease.generation ≡ generation
      → run' ≡ extend run owner generation until
      → LeaseChange run run'
  released : run' ≡ record run { lease = none } → LeaseChange run run'

-- What any call may make of a run.
pub data Change (run run' : Run) : Type 0 where
  leased : LeaseChange run run' → Change run run'
  counted : (n : ℕ) → run' ≡ record run { execs = n } → Change run run'

-- The registry is as it was, or the run `id` in it has changed.
pub data Effect (C : Run → Run → Type 0) (id : Text) (m m' : Registry) : Type 0 where
  nothing : m' ≡ m → Effect C id m m'
  changes :
      (run run' : Run)
      → lookup id m ≡ some run
      → m' ≡ insert id run' m
      → C run run'
      → Effect C id m m'

pub acquires-Effect :
    (m : Registry) (id owner : Text) (ttl : ℤ) (now : ℕ)
    → Effect LeaseChange id m (acquire_lease m id owner ttl now).1
unfolding acquire_lease
acquires-Effect m id owner ttl now = elim (Option-cases (lookup id m)) [
  | inl e ↦ nothing (ground arith)
  | inr (run, e) ↦ elim (Bool-cases (bad_lease_args owner ttl)) [
    | inl bad ↦ nothing (ground arith)
    | inr good ↦ elim (Bool-cases (held_by_other run owner now)) [
      | inl held ↦ nothing (ground arith)
      | inr free ↦ elim (Bool-cases (ltb 0 run.execs)) [
        | inl busy ↦ nothing (ground arith)
        | inr quiet ↦
            changes run (grant run owner ttl now) e (rw (good, e, acquire_lease, free, quiet))
              (granted owner ttl now refl)
      ]
    ]
  ]
]

renewable-lease :
    (run : Run) (owner : Text) (generation now : ℕ)
    → renewable run owner generation now ≡ true
    → (lease : LeaseState) × (run.lease ≡ some lease) × (lease.generation ≡ generation)
renewable-lease run owner generation now h =
    let (lease, (held, same, current), live) = (renewable_iff run owner generation now).0 h in
    (lease, held, current)

pub renews-Effect :
    (m : Registry) (id owner : Text) (generation : ℕ) (ttl : ℤ) (now later : ℕ)
    → Effect LeaseChange id m (renew_lease m id owner generation ttl now later).1
unfolding renew_lease
renews-Effect m id owner generation ttl now later = elim (Option-cases (lookup id m)) [
  | inl e ↦ nothing (ground arith)
  | inr (run, e) ↦ elim (Bool-cases (bad_lease_args owner ttl)) [
    | inl bad ↦ nothing (ground arith)
    | inr good ↦ elim (Bool-cases (renewable run owner generation now)) [
      | inr lost ↦ nothing (ground arith)
      | inl holds ↦
          let (lease, held, current) = renewable-lease run owner generation now holds in
          changes run (extend run owner generation (add_duration later ttl)) e
            (rw (good, e, renew_lease, holds)) (extended owner generation _ lease held current refl)
    ]
  ]
]

pub releases-Effect :
    (m : Registry) (id owner : Text) (generation : ℕ)
    → Effect LeaseChange id m (release_lease m id owner generation).1
unfolding release_lease
releases-Effect m id owner generation = elim (Option-cases (lookup id m)) [
  | inl e ↦ nothing (ground arith)
  | inr (run, e) ↦ elim (Bool-cases (is_empty (trim_space owner))) [
    | inl blank ↦ nothing (ground arith)
    | inr named ↦ elim (Bool-cases (releasable run owner generation)) [
      | inr lost ↦ nothing (ground arith)
      | inl holds ↦
          changes run (record run { lease = none }) e (rw (named, e, release_lease, holds))
            (released refl)
    ]
  ]
]

pub begins-Effect :
    (m : Registry) (id : Text) (cred : LeaseCredential) (now : ℕ)
    → Effect Change id m (begin_exec m id cred now).1
unfolding begin_exec
begins-Effect m id cred now = elim (Option-cases (lookup id m)) [
  | inl e ↦ nothing (ground arith)
  | inr (run, e) ↦ elim (check_fence-cases run cred now) [
    | inl passes ↦
        changes run (record run { execs = run.execs + 1 }) e (rw (e, begin_exec, passes))
          (counted _ refl)
    | inr refused ↦ nothing (rw (e, begin_exec, refused))
  ]
]

pub finishes-Effect : (m : Registry) (id : Text) → Effect Change id m (finish_exec m id)
unfolding finish_exec
finishes-Effect m id = elim (Option-cases (lookup id m)) [
  | inl e ↦ nothing (ground arith)
  | inr (run, e) ↦ elim (Bool-cases (ltb 0 run.execs)) [
    | inl some_left ↦
        changes run (record run { execs = run.execs - 1 }) e (rw (e, finish_exec, some_left))
          (counted _ refl)
    | inr none_left ↦ nothing (rw (e, finish_exec, none_left))
  ]
]

LeaseChange-Effect :
    (id : Text) (m m' : Registry) → Effect LeaseChange id m m' → Effect Change id m m'
LeaseChange-Effect id m m' (nothing e) = nothing e
LeaseChange-Effect id m m' (changes run run' known e c) = changes run run' known e (leased c)

pub step-Effect : (m : Registry) (c : Call) → Effect Change (target c) m (step m c)
unfolding step target
step-Effect m (acquires id owner ttl now) =
    LeaseChange-Effect id m _ (acquires-Effect m id owner ttl now)
step-Effect m (renews id owner generation ttl now later) =
    LeaseChange-Effect id m _ (renews-Effect m id owner generation ttl now later)
step-Effect m (releases id owner generation) =
    LeaseChange-Effect id m _ (releases-Effect m id owner generation)
step-Effect m (begins id cred now) = begins-Effect m id cred now
step-Effect m (finishes id) = finishes-Effect m id
