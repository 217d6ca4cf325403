-- ===== src/Run/Lease/Examples.antt =====
-- The lease theorems at a small registry, and runs of the calls.
use teploy_sandbox.Prelude.{
  ℕ, ◌≡◌, refl, ◌↔◌, false, none, some, [], ◌∷◌, arith, Text, codes, text_eq, trim_space, is_empty,
  lookup, insert, pos, ok, err, bad_request, lease_held, lease_superseded, busy,
}
use teploy_sandbox.Run.Types.{Run, LeaseState, Registry, network_none}
use teploy_sandbox.Run.Lease.{
  next_gen, acquire_lease, renew_lease, release_lease, begin_exec, finish_exec, active_lease,
}
use teploy_sandbox.Run.Lease.Fence.{Passes, begin_exec-fenced}
use teploy_sandbox.Run.Lease.Grant.{
  Grantable, credential, acquire_lease-ok_iff, acquire_lease-excludes,
}
use teploy_sandbox.Run.Lease.Holder.{lapsed_lease_open}
use teploy_sandbox.Run.Lease.Calls.{releases, begins, finishes, history}
use teploy_sandbox.Run.Lease.History.{superseded_never_fences}
use teploy_sandbox.Run.Lease.Sessions.{in_flight, acquire_lease_between_execs}

abbrev run_id : Text
run_id = codes "01A"

abbrev alice : Text
alice = codes "alice"

abbrev bob : Text
bob = codes "bob"

abbrev container : Text
container = codes "c1"

abbrev free_run : Run
free_run = record {
  id = run_id;
  image = codes "alpine";
  network = network_none;
  container_id = container;
  warm = none;
  cache_dir = [];
  cache_path = [];
  created_at = 0;
  expires_at = 1000;
  lease = none;
  lease_gen = 4;
  execs = 0;
}

-- Alice holds generation 5 until 100.
abbrev alice_lease : LeaseState
alice_lease = record { holder = alice; generation = 5; expires_at = 100 }

abbrev leased_run : Run
leased_run = record free_run { lease = some alice_lease; lease_gen = 5 }

abbrev free_runs : Registry
free_runs = (run_id, free_run) ∷ []

abbrev leased_runs : Registry
leased_runs = (run_id, leased_run) ∷ []

free_known : lookup run_id free_runs ≡ some free_run
unfolding lookup text_eq
free_known = refl

leased_known : lookup run_id leased_runs ≡ some leased_run
unfolding lookup text_eq
leased_known = refl

granted_at_10 : (acquire_lease free_runs run_id alice (pos 90) 10).0 ≡ ok (5, 100)
unfolding acquire_lease next_gen trim_space lookup text_eq active_lease
granted_at_10 = refl

bob_waits : (acquire_lease leased_runs run_id bob (pos 90) 10).0 ≡ err lease_held
unfolding acquire_lease trim_space lookup text_eq active_lease
bob_waits = refl

-- A blank owner, no time to live, and one past the bound.
refused : (acquire_lease free_runs run_id (codes " ") (pos 90) 10).0 ≡ err bad_request
unfolding acquire_lease trim_space
refused = refl

alice_named : is_empty (trim_space alice) ≡ false
unfolding trim_space
alice_named = refl

bob_named : is_empty (trim_space bob) ≡ false
unfolding trim_space
bob_named = refl

regranted :
    (acquire_lease (history leased_runs (releases run_id alice 5 ∷ [])) run_id bob (pos 90) 20).0
    ≡ ok (6, 110)
unfolding acquire_lease history release_lease next_gen trim_space lookup insert text_eq active_lease
regranted = refl

-- With no lease left, the credential of generation 4 passes like any other.
stale_begins :
    (begin_exec (history leased_runs (releases run_id alice 5 ∷ [])) run_id (credential bob 4) 60).0
    ≡ ok container
unfolding begin_exec history release_lease trim_space lookup insert text_eq active_lease
stale_begins = refl

granted_after_exec :
    (acquire_lease
      (history free_runs (begins run_id (credential [] 0) 5 ∷ finishes run_id ∷ []))
      run_id
      alice
      (pos 90)
      10).0
    ≡ ok (5, 100)
unfolding acquire_lease history begin_exec finish_exec next_gen trim_space lookup insert text_eq
    active_lease
granted_after_exec = refl

-- Not while the exec runs.
busy_under_exec :
    (acquire_lease
      (history free_runs (begins run_id (credential [] 0) 5 ∷ []))
      run_id
      alice
      (pos 90)
      10).0
    ≡ err busy
unfolding acquire_lease history begin_exec trim_space lookup insert text_eq active_lease
busy_under_exec = refl

begin_exec-fenced_example :
    (Passes leased_run (credential alice 5) 50
      → begin_exec leased_runs run_id (credential alice 5) 50
        ≡ (ok container, insert run_id (record leased_run { execs = 1 }) leased_runs))
    × (¬ Passes leased_run (credential alice 5) 50
        → begin_exec leased_runs run_id (credential alice 5) 50 ≡ (err lease_held, leased_runs))
begin_exec-fenced_example =
    begin_exec-fenced leased_runs run_id leased_run (credential alice 5) 50 leased_known

acquire_lease-ok_iff_example :
    ((g : ℕ × ℕ) × ((acquire_lease free_runs run_id alice (pos 90) 10).0 ≡ ok g))
    ↔ ((run : Run) × (d : ℕ) × (pos 90 ≡ pos d) × Grantable free_runs run_id run alice d 10)
acquire_lease-ok_iff_example = acquire_lease-ok_iff free_runs run_id alice (pos 90) 10

acquire_lease-excludes_example :
    ((c : Text) × ((begin_exec
          (acquire_lease free_runs run_id alice (pos 90) 10).1
          run_id
          (credential bob 5)
          99).0
        ≡ ok c))
    ↔ (credential bob 5 ≡ credential alice 5)
acquire_lease-excludes_example =
    acquire_lease-excludes free_runs run_id alice (pos 90) 10 5 100 granted_at_10 (credential bob 5)
      99 (omega arith)

lapsed_lease_open_example :
    ((renew_lease leased_runs run_id alice 5 (pos 90) 100 101).0 ≡ err lease_superseded)
    × ((release_lease leased_runs run_id alice 5).0 ≡ ok tt)
    × ((begin_exec leased_runs run_id (credential bob 3) 100).0 ≡ ok container)
lapsed_lease_open_example =
    lapsed_lease_open leased_runs run_id leased_run alice 5 alice_lease 90 100 101
      (credential bob 3) leased_known alice_named (omega arith) (omega arith) (refl, refl, refl)
      (omega arith)

superseded_never_fences_example :
    (run' : Run) × (lookup run_id (history leased_runs (releases run_id alice 5 ∷ [])) ≡ some run')
    × (active_lease run' 60 ≡ none)
superseded_never_fences_example =
    superseded_never_fences leased_runs run_id leased_run (releases run_id alice 5 ∷ [])
      leased_known refl (omega arith) (credential bob 4) 60 (omega arith) stale_begins

acquire_lease_between_execs_example :
    in_flight run_id free_runs 0 (begins run_id (credential [] 0) 5 ∷ finishes run_id ∷ []) ≡ 0
acquire_lease_between_execs_example =
    acquire_lease_between_execs free_runs (begins run_id (credential [] 0) 5 ∷ finishes run_id ∷ [])
      run_id free_run alice (pos 90) 10 free_known refl granted_after_exec
