-- ===== src/Run/Lease.antt =====
-- internal/run/lease.go. Each function is one critical section of `Manager.mu`: it takes the
-- registry and the clock's reading, and returns the result and the registry after it.
pub mod Fence
pub mod Grant
pub mod Holder
pub mod Calls
pub mod History
pub mod Sessions
mod Examples
use teploy_sandbox.Prelude.{
  ℕ, ◌+◌, ◌-◌, ◌%◌, Bool, false, not, ◌&&◌, ◌||◌, Option, none, some, Text, text_eq, is_empty,
  trim_space, lookup, insert, Result, ok, err, not_found, bad_request, lease_held, lease_superseded,
  busy, ltb, leb, ◌==◌, if◌then◌else◌, ℤ, two_pow_64, is_positive, exceeds, add_duration,
}
use teploy_sandbox.Run.Types.{Run, LeaseState, LeaseCredential, Registry, max_ttl}

unfoldable pub active_lease : Run → ℕ → Option LeaseState
active_lease run now = elim run.lease [
  | none ↦ none
  | some lease ↦ if leb lease.expires_at now then none else some lease
]

-- `cred.Owner == lease.Holder && cred.Generation == lease.Generation`.
pub matches : LeaseCredential → LeaseState → Bool
matches cred lease = text_eq cred.owner lease.holder && cred.generation == lease.generation

unfoldable pub check_fence : Run → LeaseCredential → ℕ → Result (Unit {0})
unfolding active_lease matches
check_fence run cred now = elim (active_lease run now) [
  | none ↦ ok tt
  | some lease ↦ if matches cred lease then ok tt else err lease_held
]

-- `lease != nil && lease.Holder != owner`, for the active lease.
pub held_by_other : Run → Text → ℕ → Bool
unfolding active_lease
held_by_other run owner now = elim (active_lease run now) [
  | none ↦ false
  | some lease ↦ not (text_eq lease.holder owner)
]

-- The arguments that AcquireLease and RenewLease refuse before they take the lock.
pub bad_lease_args : Text → ℤ → Bool
bad_lease_args owner ttl =
    is_empty (trim_space owner) || not (is_positive ttl) || exceeds ttl max_ttl

pub next_gen : Run → ℕ
next_gen run = (run.lease_gen + 1) % two_pow_64

pub grant : Run → Text → ℤ → ℕ → Run
unfolding next_gen
grant run owner ttl now = record run {
  lease_gen = next_gen run;
  lease =
      some
        (record { holder = owner; generation = next_gen run; expires_at = add_duration now ttl });
}

pub acquire_found : Registry → Text → Run → Text → ℤ → ℕ → Result (ℕ × ℕ) × Registry
unfolding held_by_other grant
acquire_found m id run owner ttl now =
    if held_by_other run owner now
    then (err lease_held, m)
    else if ltb 0 run.execs
    then (err busy, m)
    else (ok (next_gen run, add_duration now ttl), insert id (grant run owner ttl now) m)

-- AcquireLease: the generation and the expiry that are granted.
unfoldable pub acquire_lease : Registry → Text → Text → ℤ → ℕ → Result (ℕ × ℕ) × Registry
unfolding acquire_found bad_lease_args
acquire_lease m id owner ttl now =
    if bad_lease_args owner ttl then (err bad_request, m) else elim (lookup id m) [
      | none ↦ (err not_found, m)
      | some run ↦ acquire_found m id run owner ttl now
    ]

-- `lease.Holder == owner && lease.Generation == generation`.
pub is_grant : LeaseState → Text → ℕ → Bool
is_grant lease owner generation = text_eq lease.holder owner && lease.generation == generation

-- The active lease, if `owner` and `generation` are those of its grant.
pub renewable : Run → Text → ℕ → ℕ → Bool
unfolding active_lease is_grant
renewable run owner generation now = elim (active_lease run now) [
  | none ↦ false
  | some lease ↦ is_grant lease owner generation
]

pub extend : Run → Text → ℕ → ℕ → Run
extend run owner generation until = record run {
  lease = some (record { holder = owner; generation = generation; expires_at = until });
}

-- RenewLease. It reads the clock twice: `now` decides whether the lease is active and `later` is
-- what the extension counts from.
unfoldable pub renew_lease : Registry → Text → Text → ℕ → ℤ → ℕ → ℕ → Result ℕ × Registry
unfolding renewable extend bad_lease_args
renew_lease m id owner generation ttl now later =
    if bad_lease_args owner ttl then (err bad_request, m) else elim (lookup id m) [
      | none ↦ (err not_found, m)
      | some run ↦
          if renewable run owner generation now
          then (
            ok (add_duration later ttl),
            insert id (extend run owner generation (add_duration later ttl)) m,
          )
          else (err lease_superseded, m)
    ]

pub releasable : Run → Text → ℕ → Bool
unfolding is_grant
releasable run owner generation = elim run.lease [
  | none ↦ false
  | some lease ↦ is_grant lease owner generation
]

-- ReleaseLease. It does not ask the clock.
unfoldable pub release_lease : Registry → Text → Text → ℕ → Result (Unit {0}) × Registry
unfolding releasable
release_lease m id owner generation =
    if is_empty (trim_space owner) then (err bad_request, m) else elim (lookup id m) [
      | none ↦ (err not_found, m)
      | some run ↦
          if releasable run owner generation
          then (ok tt, insert id (record run { lease = none }) m)
          else (err lease_superseded, m)
    ]

pub admit : Registry → Text → Run → Result (Unit {0}) → Result Text × Registry
admit m id run (ok _) = (ok run.container_id, insert id (record run { execs = run.execs + 1 }) m)
admit m id run (err e) = (err e, m)

-- BeginExec, and the admission that begins WriteFile: the container to work in.
unfoldable pub begin_exec : Registry → Text → LeaseCredential → ℕ → Result Text × Registry
unfolding check_fence admit
begin_exec m id cred now = elim (lookup id m) [
  | none ↦ (err not_found, m)
  | some run ↦ admit m id run (check_fence run cred now)
]

-- finishExec, which Exec and WriteFile call when the runtime has answered, and Abandon at once.
unfoldable pub finish_exec : Registry → Text → Registry
finish_exec m id = elim (lookup id m) [
  | none ↦ m
  | some run ↦ if ltb 0 run.execs then insert id (record run { execs = run.execs - 1 }) m else m
]

-- WriteFile. `others` is what other goroutines do to the registry while the runtime works, and
-- `answer` is what the runtime says of the container that it is handed.
unfoldable pub write_file :
    Registry
    → Text
    → LeaseCredential
    → ℕ
    → (Registry → Registry)
    → (Text → Result (Unit {0}))
    → Result (Unit {0}) × Registry
unfolding begin_exec finish_exec
write_file m id cred now others answer =
    let (admitted, m') = begin_exec m id cred now in
    elim admitted [
      | err e ↦ (err e, m')
      | ok container ↦ (answer container, finish_exec (others m') id)
    ]

-- ReadFile: unfenced.
unfoldable pub read_file : Registry → Text → (Text → Result Text) → Result Text
read_file m id answer = elim (lookup id m) [
  | none ↦ err not_found
  | some run ↦ answer run.container_id
]
