-- ===== src/Run/Lease/Sessions.antt =====
-- The in-flight count that keeps a takeover away from a running exec or write (lease.go: execs,
-- BeginExec, finishExec, AcquireLease).
use teploy_sandbox.Prelude.{
  ℕ, ◌+◌, ◌-◌, ◌≡◌, sym, ap, ◌∙◌, inl, inr, Bool, true, false, ◌&&◌, some, Text, text_eq,
  text_eq_iff, text_eq_refl, lookup, lookup-insert, List, [], ◌∷◌, Result, ok, err, arith, ltb,
  Bool-cases, if◌then◌else◌, ℤ,
}
use teploy_sandbox.Run.Types.{Run, LeaseCredential, Registry}
use teploy_sandbox.Run.Lease.{grant, extend, acquire_lease, begin_exec, finish_exec}
use teploy_sandbox.Run.Lease.Calls.{
  Call, acquires, renews, releases, begins, finishes, step, history, LeaseChange, granted, extended,
  released, Effect, nothing, changes, Change, acquires-Effect, renews-Effect, releases-Effect,
  begins-Effect, finishes-Effect,
}
use teploy_sandbox.Run.Lease.Fence.{check_fence-cases}
use teploy_sandbox.Run.Lease.Grant.{acquire_lease-Grantable}

abbrev is_ok {ℓ} : {A : Type ℓ} → Result A → Bool
is_ok (ok a) = true
is_ok (err e) = false

-- How many execs and writes are in flight on the run `id` after a call, if there were `n`: an
-- admission adds one, and the end of one takes one off.
pub flights : Text → Registry → ℕ → Call → ℕ
flights id m n (begins key cred now) =
    if text_eq key id && is_ok (begin_exec m key cred now).0 then n + 1 else n
flights id m n (finishes key) = if text_eq key id then n - 1 else n
flights id m n (acquires key owner ttl now) = n
flights id m n (renews key owner generation ttl now later) = n
flights id m n (releases key owner generation) = n

pub in_flight : Text → Registry → ℕ → List Call → ℕ
in_flight id m n [] = n
in_flight id m n (c ∷ cs) = in_flight id (step m c) (flights id m n c) cs

-- The run `id` is still known, with `n` calls in flight.
abbrev Counts : Registry → Text → ℕ → Type 0
Counts m id n = (run : Run) × (lookup id m ≡ some run) × (run.execs ≡ n)

LeaseChange-execs : (run run' : Run) → LeaseChange run run' → run'.execs ≡ run.execs
unfolding grant extend
LeaseChange-execs run run' (granted owner ttl now e) = rw e
LeaseChange-execs run run' (extended owner generation until lease held same e) = rw e
LeaseChange-execs run run' (released e) = rw e

lease_call-Counts :
    (m m' : Registry) (id key : Text) (n : ℕ)
    → Effect LeaseChange key m m'
    → Counts m id n
    → Counts m' id n
lease_call-Counts m m' id key n (nothing e) c = rw e c
lease_call-Counts m m' id key n (changes old new found e change) (run, known, count) =
    elim (Bool-cases (text_eq key id)) [
      | inr other ↦ (run, rw (e, lookup-insert key id new m, other) known, count)
      | inl same ↦
          let hit : some old ≡ some run = ground (arith, text_eq_iff key id) in
          let is : old ≡ run = cc in
          (
            new,
            rw (e, lookup-insert key id new m, same),
            LeaseChange-execs old new change ∙ ap (λ r. r.execs) is ∙ count,
          )
    ]

other-Counts :
    (m m' : Registry) (id key : Text) (n : ℕ)
    → Effect Change key m m'
    → text_eq key id ≡ false
    → Counts m id n
    → Counts m' id n
other-Counts m m' id key n (nothing e) other c = rw e c
other-Counts m m' id key n (changes old new found e change) other (run, known, count) =
    (run, rw (e, lookup-insert key id new m, other) known, count)

begins-Counts :
    (m : Registry) (id : Text) (n : ℕ) (cred : LeaseCredential) (now : ℕ)
    → Counts m id n
    → Counts
        (begin_exec m id cred now).1
        id
        (if is_ok (begin_exec m id cred now).0 then n + 1 else n)
unfolding begin_exec
begins-Counts m id n cred now (run, known, count) = elim (check_fence-cases run cred now) [
  | inl passes ↦
      rw (known, begin_exec, passes)
        (
          record run { execs = run.execs + 1 },
          rw (lookup-insert id id (record run { execs = run.execs + 1 }) m, text_eq_refl id),
          rw count,
        )
  | inr refused ↦ rw (known, begin_exec, refused) (run, known, count)
]

finishes-Counts :
    (m : Registry) (id : Text) (n : ℕ) → Counts m id n → Counts (finish_exec m id) id (n - 1)
unfolding finish_exec
finishes-Counts m id n (run, known, count) = elim (Bool-cases (ltb 0 run.execs)) [
  | inl some_left ↦
      rw (known, finish_exec, some_left)
        (
          record run { execs = run.execs - 1 },
          rw (lookup-insert id id (record run { execs = run.execs - 1 }) m, text_eq_refl id),
          rw count,
        )
  | inr none_left ↦ rw (known, finish_exec, none_left) (run, known, ground arith)
]

step-Counts :
    (m : Registry) (c : Call) (id : Text) (n : ℕ)
    → Counts m id n
    → Counts (step m c) id (flights id m n c)
unfolding step flights
step-Counts m (acquires key owner ttl now) id n c =
    lease_call-Counts m _ id key n (acquires-Effect m key owner ttl now) c
step-Counts m (renews key owner generation ttl now later) id n c =
    lease_call-Counts m _ id key n (renews-Effect m key owner generation ttl now later) c
step-Counts m (releases key owner generation) id n c =
    lease_call-Counts m _ id key n (releases-Effect m key owner generation) c
step-Counts m (begins key cred now) id n c = elim (Bool-cases (text_eq key id)) [
  | inl same ↦ rw ((text_eq_iff key id).0 same, text_eq_refl id) (begins-Counts m id n cred now c)
  | inr other ↦ rw other (other-Counts m _ id key n (begins-Effect m key cred now) other c)
]
step-Counts m (finishes key) id n c = elim (Bool-cases (text_eq key id)) [
  | inl same ↦ rw ((text_eq_iff key id).0 same, text_eq_refl id) (finishes-Counts m id n c)
  | inr other ↦ rw other (other-Counts m _ id key n (finishes-Effect m key) other c)
]

pub history-Counts :
    (m : Registry) (cs : List Call) (id : Text) (n : ℕ)
    → Counts m id n
    → Counts (history m cs) id (in_flight id m n cs)
unfolding history in_flight
history-Counts m [] id n c = c
history-Counts m (c ∷ cs) id n counts =
    history-Counts (step m c) cs id (flights id m n c) (step-Counts m c id n counts)

-- A lease is granted only when every exec and write that was admitted to the run has ended: for any
-- sequence of calls on a known run with nothing in flight at first, if AcquireLease then succeeds,
-- admissions and ends have balanced out.
pub acquire_lease_between_execs :
    (m : Registry) (cs : List Call) (id : Text) (run : Run) (owner : Text) (ttl : ℤ) (now : ℕ)
    {g : ℕ × ℕ}
    → lookup id m ≡ some run
    → run.execs ≡ 0
    → (acquire_lease (history m cs) id owner ttl now).0 ≡ ok g
    → in_flight id m 0 cs ≡ 0
acquire_lease_between_execs m cs id run owner ttl now known quiet h =
    let (end, found, count) = history-Counts m cs id 0 (run, known, quiet) in
    let (old, d, shape, ready) = acquire_lease-Grantable (history m cs) id owner ttl now h in
    let same : some old ≡ some end = sym ready.known ∙ found in
    let is : old ≡ end = cc in sym count ∙ ap (λ r. r.execs) (sym is) ∙ ready.quiet
