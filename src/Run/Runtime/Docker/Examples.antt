-- ===== src/Run/Runtime/Docker/Examples.antt =====
-- The theorems on the docker calls at concrete answers (runtime.go).
use teploy_sandbox.Prelude.{
  ◌+◌, ◌*◌, ◌≡◌, refl, ◌⊎◌, inl, inr, false, none, some, List, [], ◌∷◌, arith, Text, codes, text_eq,
  trim_space, pos, ok, err, internal,
}
use teploy_sandbox.Run.Manager.Request.{CreateSpec, default_cpus}
use teploy_sandbox.Run.Types.{network_none}
use teploy_sandbox.Run.Runtime.Args.{DockerRuntime, Printer, create_args}
use teploy_sandbox.Run.Runtime.Docker.{
  runs, inspects, called, Log, Host, reply_to, Waiting, snapshot_run, wait_running,
  create_container, sweep_orphans,
}
use teploy_sandbox.Run.Runtime.Docker.Deadline.{Sleeps, CreateEnds, create_container-CreateEnds}

-- Docker prints an id, then says twice that the container does not run yet, and then that it does.
abbrev slow_start : Log → List Text → Text ⊎ Text
slow_start [] args = inr (codes "c1\n")
slow_start (e ∷ []) args = inr (codes "false\n")
slow_start (e ∷ e1 ∷ []) args = inr (codes "false\n")
slow_start (e ∷ e1 ∷ e2 ∷ log) args = inr (codes "true\n")

abbrev host : Host
host = record { docker = slow_start; temp_dir = λ log. some (codes "/tmp/sbx-snapshot-1") }

-- The second copy fails.
abbrev full_disk : Log → List Text → Text ⊎ Text
full_disk [] args = inr []
full_disk (e ∷ []) args = inr []
full_disk (e ∷ e1 ∷ []) args = inr []
full_disk (e ∷ e1 ∷ e2 ∷ []) args = inr []
full_disk (e ∷ e1 ∷ e2 ∷ e3 ∷ log) args = inl (codes "no space left on device")

abbrev full_host : Host
full_host = record { docker = full_disk; temp_dir = λ log. some (codes "/tmp/sbx-snapshot-1") }

abbrev waiting : Waiting
waiting = record { start = 7; now = λ n. 7 + n * 50000000; cancelled = λ n. false }

waiting-Sleeps : Sleeps waiting
unfolding Sleeps
waiting-Sleeps n = omega arith

abbrev print : Printer
print = record { decimal = λ n. codes "7"; float = λ x. codes "1" }

-- The fifth command fails: the rest is the clean-up.
failed_copy :
    (snapshot_run full_host
      (codes "c1")
      (codes "/work")
      (codes "teploy-sbx-snap:01j")
      (codes "s")
      []).0
    ≡ err internal
unfolding snapshot_run
failed_copy = refl

abbrev gvisor : DockerRuntime
gvisor = record { runtime = codes "runsc"; shm_mb = pos 512 }

abbrev spec : CreateSpec
spec = record {
  name = codes "teploy-sbx-1";
  image = codes "alpine";
  env = [];
  memory_mb = pos 1024;
  cpus = default_cpus;
  pids = pos 256;
  network = network_none;
  proxy_url = [];
  cache_host_path = [];
  cache_path = [];
}

create_container-CreateEnds_example :
    CreateEnds
      (reply_to host (runs (create_args print gvisor spec)) [])
      (create_container host waiting print gvisor spec [])
create_container-CreateEnds_example =
    create_container-CreateEnds host waiting print gvisor spec [] waiting-Sleeps

two_orphans :
    (sweep_orphans
      (record { docker = λ log args. inr (codes "c1\nc2\n"); temp_dir = λ log. none })
      []).0
    ≡ ok 2
unfolding sweep_orphans
two_orphans = refl

ready_at_once :
    (log : Log)
    → wait_running
        (record { docker = λ log args. inr (codes "true"); temp_dir = λ l. none })
        waiting
        (codes "c1")
        302
        0
        log
      ≡ some (ok tt, called (inspects (codes "c1")) (inr (codes "true")) ∷ log)
unfolding wait_running trim_space text_eq
ready_at_once log = refl
