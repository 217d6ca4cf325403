-- ===== src/Run/Lease/Fence.antt =====
-- What the fence of BeginExec lets through (lease.go: activeLease, checkFence, BeginExec).
use teploy_sandbox.Prelude.{
  ℕ, ◌+◌, ◌<◌, ◌≡◌, ◌↔◌, ◌⊎◌, inl, inr, true, some, Text, text_eq_iff, lookup, insert, ok, err,
  lease_held, arith, Option-cases,
}
use teploy_sandbox.Run.Types.{Run, LeaseState, LeaseCredential, Registry}
use teploy_sandbox.Run.Lease.{active_lease, matches, check_fence, begin_exec}

-- The holder and the generation of a lease are those of a credential.
abbrev pub Fits : LeaseCredential → LeaseState → Type 0
Fits cred lease = (cred.owner ≡ lease.holder) × (cred.generation ≡ lease.generation)

-- Every lease that the run holds and that has not lapsed is the credential's.
abbrev pub Passes : Run → LeaseCredential → ℕ → Type 0
Passes run cred now =
    (lease : LeaseState) → run.lease ≡ some lease → now < lease.expires_at → Fits cred lease

pub matches_iff :
    (cred : LeaseCredential) (lease : LeaseState) → (matches cred lease ≡ true) ↔ Fits cred lease
unfolding matches
matches_iff cred lease = ground (arith, text_eq_iff cred.owner lease.holder)

pub active_lease-eq_some :
    (run : Run) (now : ℕ) (lease : LeaseState)
    → run.lease ≡ some lease
    → now < lease.expires_at
    → active_lease run now ≡ some lease
unfolding active_lease
active_lease-eq_some run now lease e h = ground arith

pub active_lease-inv :
    (run : Run) (now : ℕ) (lease : LeaseState)
    → active_lease run now ≡ some lease
    → (run.lease ≡ some lease) × (now < lease.expires_at)
unfolding active_lease
active_lease-inv run now lease e = ground arith

pub check_fence-ok :
    (run : Run) (cred : LeaseCredential) (now : ℕ)
    → Passes run cred now
    → check_fence run cred now ≡ ok tt
unfolding check_fence
check_fence-ok run cred now p = elim (Option-cases (active_lease run now)) [
  | inl e ↦ rw (e, check_fence)
  | inr (lease, e) ↦
      let (held, live) = active_lease-inv run now lease e in
      rw (e, check_fence, (matches_iff cred lease).1 (p lease held live))
]

pub check_fence-inv :
    (run : Run) (cred : LeaseCredential) (now : ℕ)
    → check_fence run cred now ≡ ok tt
    → Passes run cred now
unfolding check_fence
check_fence-inv run cred now h lease held live =
    ground (arith, active_lease-eq_some run now lease held live, matches_iff cred lease)

pub check_fence-cases :
    (run : Run) (cred : LeaseCredential) (now : ℕ)
    → (check_fence run cred now ≡ ok tt) ⊎ (check_fence run cred now ≡ err lease_held)
unfolding check_fence
check_fence-cases run cred now = ground arith

pub check_fence-refuses :
    (run : Run) (cred : LeaseCredential) (now : ℕ)
    → ¬ Passes run cred now
    → check_fence run cred now ≡ err lease_held
check_fence-refuses run cred now p = elim (check_fence-cases run cred now) [
  | inl e ↦ absurd (p (check_fence-inv run cred now e))
  | inr e ↦ e
]

module _ (m : Registry) (id : Text) (run : Run) (cred : LeaseCredential) (now : ℕ)
    (known : lookup id m ≡ some run) where
  -- An exec of a known run is admitted, into the run's container and with one more call in flight,
  -- exactly if every lease on the run that has not lapsed has the credential's owner and
  -- generation. Otherwise it is refused with ErrLeaseHeld and nothing changes.
  pub begin_exec-fenced :
      (Passes run cred now
        → begin_exec m id cred now
          ≡ (ok run.container_id, insert id (record run { execs = run.execs + 1 }) m))
      × (¬ Passes run cred now → begin_exec m id cred now ≡ (err lease_held, m))
  unfolding begin_exec
  begin_exec-fenced = (
    λ p. rw (known, begin_exec, check_fence-ok run cred now p),
    λ p. rw (known, begin_exec, check_fence-refuses run cred now p),
  )

  pub begin_exec-Passes : {c : Text} → (begin_exec m id cred now).0 ≡ ok c → Passes run cred now
  unfolding begin_exec
  begin_exec-Passes {c} h = check_fence-inv run cred now (ground (arith, known))
