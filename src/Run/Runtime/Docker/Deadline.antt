-- ===== src/Run/Runtime/Docker/Deadline.antt =====
-- The loop of waitRunning comes to its end (runtime.go: waitRunning, Create).
use mathlib.Core.Path.{subst}
use teploy_sandbox.Prelude.{
  ℕ, zero, suc, ◌+◌, ◌*◌, ◌≤◌, ◌<◌, ◌≡◌, refl, sym, ◌⊎◌, inl, inr, Bool, true, false, ◌||◌, Option,
  some, ◌∷◌, arith, ltb, Bool-cases, Text, trim_space, Result, ok, err, Error, internal,
}
use teploy_sandbox.Run.Manager.Request.{CreateSpec}
use teploy_sandbox.Run.Runtime.Args.{DockerRuntime, Printer, create_args}
use teploy_sandbox.Run.Runtime.Docker.{
  runs, inspects, removes, called, Log, Host, reply_to, after, Waiting, patience, pause, is_running,
  wait_running, enough_rounds, waited, started, create_container,
}

-- The clock of a loop that sleeps for at least the pause between two rounds.
unfoldable pub Sleeps : Waiting → Type 0
Sleeps w = (n : ℕ) → w.start + n * pause ≤ w.now n

-- How waitRunning ends: docker's last answer is that the container runs, or an error is returned.
data Waited (id : Text) : Result (Unit {0}) × Log → Type 0 where
  up :
      (a : Text ⊎ Text) (log : Log)
      → is_running a ≡ true
      → Waited id (ok tt, called (inspects id) a ∷ log)
  given_up : (log : Log) → Waited id (err internal, log)

record WaitEnds (id : Text) (r : Option (Result (Unit {0}) × Log)) : Type 0 where
  value : Result (Unit {0}) × Log
  returns : r ≡ some value
  waited_for : Waited id value

still_early :
    (start now n : ℕ) (stop : Bool)
    → start + n * pause ≤ now
    → (ltb (start + patience) now || stop) ≡ false
    → n ≤ 300
still_early start now n stop slept early = ground arith

wait_running-WaitEnds :
    (h : Host) (w : Waiting) (id : Text) (fuel n : ℕ) (log : Log)
    → Sleeps w
    → enough_rounds ≤ fuel + n
    → 0 < fuel
    → WaitEnds id (wait_running h w id fuel n log)
unfolding wait_running Sleeps after
wait_running-WaitEnds h w id zero n log sleeps enough some_fuel = absurd (omega arith)
wait_running-WaitEnds h w id (suc fuel) n log sleeps enough some_fuel =
    elim (Bool-cases (is_running (reply_to h (inspects id) log))) [
      | inl running ↦
          rw (running, wait_running)
            (record { value = _; returns = refl; waited_for = up _ log running })
      | inr down ↦ elim (Bool-cases (ltb (w.start + patience) (w.now n) || w.cancelled n)) [
        | inl over ↦
            rw (down, over, wait_running)
              (record { value = _; returns = refl; waited_for = given_up _ })
        | inr early ↦
            let few = still_early w.start (w.now n) n (w.cancelled n) (sleeps n) early in
            rw (down, early, wait_running)
              (wait_running-WaitEnds h w id fuel (suc n) (after h (inspects id) log) sleeps
                (omega arith) (omega arith))
      ]
    ]

-- How Create ends: `docker run` failed; or the container is the one that it printed, and docker's
-- last answer is that it runs; or that container was removed and an error is returned.
pub data Started : Text ⊎ Text → Result Text × Log → Type 0 where
  refused : (e : Text) (log : Log) → Started (inl e) (err internal, log)
  running :
      (out : Text) (a : Text ⊎ Text) (log : Log)
      → is_running a ≡ true
      → Started (inr out) (ok (trim_space out), called (inspects (trim_space out)) a ∷ log)
  removed :
      (out : Text) (e : Error) (a : Text ⊎ Text) (log : Log)
      → Started (inr out) (err e, called (removes (trim_space out)) a ∷ log)

pub record CreateEnds (a : Text ⊎ Text) (r : Option (Result Text × Log)) : Type 0 where
  pub value : Result Text × Log
  pub returns : r ≡ some value
  pub outcome : Started a value

waited-CreateEnds :
    (h : Host) (out : Text) (v : Result (Unit {0}) × Log)
    → Waited (trim_space out) v
    → CreateEnds (inr out) (waited h (trim_space out) (some v))
unfolding waited after
waited-CreateEnds h out _ (up a log running_now) = record {
  value = _;
  returns = refl;
  outcome = running out a log running_now;
}
waited-CreateEnds h out _ (given_up log) = record {
  value = _;
  returns = refl;
  outcome = removed out internal _ log;
}

started-CreateEnds :
    (h : Host) (w : Waiting) (a : Text ⊎ Text) (log : Log)
    → Sleeps w
    → CreateEnds a (started h w a log)
unfolding started
started-CreateEnds h w (inl e) log sleeps = record {
  value = _;
  returns = refl;
  outcome = refused e log;
}
started-CreateEnds h w (inr out) log sleeps =
    let e =
      wait_running-WaitEnds h w (trim_space out) enough_rounds 0 log sleeps (omega arith)
        (omega arith) in
    subst (λ r. CreateEnds (inr out) (waited h (trim_space out) r)) (sym e.returns)
      (waited-CreateEnds h out e.value e.waited_for)

-- If waitRunning sleeps for at least the 50 ms between two rounds, Create returns after at most 302
-- rounds, and in one of three ways: `docker run` failed; the container that it printed is returned,
-- and docker's last answer is that it runs; or an error is returned, and the last command removes
-- the container.
pub create_container-CreateEnds :
    (h : Host) (w : Waiting) (print : Printer) (d : DockerRuntime) (spec : CreateSpec) (log : Log)
    → Sleeps w
    → CreateEnds
        (reply_to h (runs (create_args print d spec)) log)
        (create_container h w print d spec log)
unfolding create_container
create_container-CreateEnds h w print d spec log sleeps = started-CreateEnds h w _ _ sleeps
