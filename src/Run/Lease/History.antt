-- ===== src/Run/Lease/History.antt =====
-- Sequences of lease calls and execs: generations only grow, so a credential that was superseded
-- never counts again (lease.go: the methods of Manager together).
use teploy_sandbox.Prelude.{
  ℕ, ◌+◌, ◌<◌, ◌≤◌, ◌≡◌, sym, ◌∙◌, inl, inr, Option, none, some, Text, text_eq, text_eq_iff, lookup,
  lookup-insert, List, [], ◌∷◌, length, ok, arith, Option-cases, Bool-cases, ℤ, two_pow_64,
}
use teploy_sandbox.Run.Types.{Run, LeaseState, LeaseCredential, Registry}
use teploy_sandbox.Run.Lease.{active_lease, next_gen, grant, acquire_lease, extend, begin_exec}
use teploy_sandbox.Run.Lease.Calls.{
  Call, step, history, target, LeaseChange, granted, extended, released, Change, leased, counted,
  Effect, nothing, changes, step-Effect,
}
use teploy_sandbox.Run.Lease.Fence.{active_lease-inv, begin_exec-Passes}
use teploy_sandbox.Run.Lease.Grant.{acquire_lease-Grantable, acquire_lease-grants}

-- A lease carries the latest generation.
abbrev pub Current : Option LeaseState → ℕ → Type 0
Current none g = Unit {0}
Current (some lease) g = lease.generation ≡ g

-- At most `k` generations were added, and the lease is current.
abbrev pub Ages : ℕ → Run → Run → Type 0
Ages k run run' =
    (run.lease_gen ≤ run'.lease_gen)
    × (run'.lease_gen ≤ run.lease_gen + k)
    × Current run'.lease run'.lease_gen

LeaseChange-Ages :
    (run run' : Run)
    → LeaseChange run run'
    → run.lease_gen + 1 < two_pow_64
    → Current run.lease run.lease_gen
    → Ages 1 run run'
unfolding grant extend
LeaseChange-Ages run run' (granted owner ttl now e) room current = rw e (ground arith)
LeaseChange-Ages run run' (extended owner generation until lease held same e) room current =
    rw e (ground arith)
LeaseChange-Ages run run' (released e) room current = rw e (omega arith)

Change-Ages :
    (run run' : Run)
    → Change run run'
    → run.lease_gen + 1 < two_pow_64
    → Current run.lease run.lease_gen
    → Ages 1 run run'
Change-Ages run run' (leased c) room current = LeaseChange-Ages run run' c room current
Change-Ages run run' (counted n e) room current = rw e (omega arith, omega arith, current)

-- The run that `id` names after a call or more is an aged `run`.
abbrev pub Aged : ℕ → Registry → Text → Run → Type 0
Aged k m id run = (run' : Run) × (lookup id m ≡ some run') × Ages k run run'

Effect-Aged :
    (m m' : Registry) (id key : Text) (run : Run)
    → Effect Change key m m'
    → lookup id m ≡ some run
    → Current run.lease run.lease_gen
    → run.lease_gen + 1 < two_pow_64
    → Aged 1 m' id run
Effect-Aged m m' id key run (nothing e) known current room =
    (run, rw e known, (omega arith, omega arith, current))
Effect-Aged m m' id key run (changes old new found e change) known current room =
    elim (Bool-cases (text_eq key id)) [
      | inr other ↦ (
        run,
        rw (e, lookup-insert key id new m, other) known,
        (omega arith, omega arith, current),
      )
      | inl same ↦
          let hit : some old ≡ some run = ground (arith, text_eq_iff key id) in
          let is : old ≡ run = cc in
          (
            new,
            rw (e, lookup-insert key id new m, same),
            rw is at (Change-Ages old new change (rw is room) (rw is current)),
          )
    ]

pub history-Aged :
    (m : Registry) (cs : List Call) (id : Text) (run : Run)
    → lookup id m ≡ some run
    → Current run.lease run.lease_gen
    → run.lease_gen + length cs < two_pow_64
    → Aged (length cs) (history m cs) id run
unfolding history
history-Aged m [] id run known current room = (run, known, (omega arith, omega arith, current))
history-Aged m (c ∷ cs) id run known current room =
    let (mid, found, (grows, little, current')) =
      Effect-Aged m (step m c) id (target c) run (step-Effect m c) known current (omega arith) in
    let (end, last, (grows', little', current'')) =
      history-Aged (step m c) cs id mid found current' (omega arith) in
    (end, last, (omega arith, omega arith, current''))

module _ (m : Registry) (id : Text) (run : Run) (cs : List Call) (known : lookup id m ≡ some run)
    (current : Current run.lease run.lease_gen)
    (room : run.lease_gen + length cs + 1 < two_pow_64) where
  -- Whatever lease calls and execs come between, on this run and on others, a later grant on a run
  -- has a generation above every one that the run has given so far. The run's counter must have
  -- room for one step per call below 2 ^ 64, and its lease must carry the counter's value.
  pub grant-increases :
      (owner : Text) (ttl : ℤ) (now g e : ℕ)
      → (acquire_lease (history m cs) id owner ttl now).0 ≡ ok (g, e)
      → run.lease_gen < g
  unfolding next_gen
  grant-increases owner ttl now g e h =
      let (old, d, shape, ready) = acquire_lease-Grantable (history m cs) id owner ttl now h in
      let (now_run, found, (grows, little, _)) =
        history-Aged m cs id run known current (omega arith) in
      let granted = acquire_lease-grants (history m cs) id old owner d now ready in
      let same : some old ≡ some now_run = sym ready.known ∙ found in
      let is : old ≡ now_run = cc in
      let gen : g ≡ next_gen old = ground arith in rw (gen, is) (ground arith)

  -- A credential of an earlier generation than the run's latest is admitted to an exec, after any
  -- lease calls and execs, only while the run has no lease that has not lapsed. (Room and current
  -- lease as above.)
  pub superseded_never_fences :
      (cred : LeaseCredential) (t : ℕ) {c : Text}
      → cred.generation < run.lease_gen
      → (begin_exec (history m cs) id cred t).0 ≡ ok c
      → (run' : Run) × (lookup id (history m cs) ≡ some run') × (active_lease run' t ≡ none)
  superseded_never_fences cred t old h =
      let (run', found, (grows, little, current')) =
        history-Aged m cs id run known current (omega arith) in
      (
        run',
        found,
        elim (Option-cases (active_lease run' t)) [
          | inl e ↦ e
          | inr (lease, e) ↦
              let (held, live) = active_lease-inv run' t lease e in
              let fits = begin_exec-Passes (history m cs) id run' cred t found h lease held live in
              let same : lease.generation ≡ run'.lease_gen = rw held at current' in
              absurd (omega (arith, fits.1))
        ],
      )
