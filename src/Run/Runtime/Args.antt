-- ===== src/Run/Runtime/Args.antt =====
-- The argument lists of docker run and docker exec, and the reading of an exit code (runtime.go:
-- createArgs, execArgs, classifyExit, ImageIsSnapshot). How `%d` and `%g` print numbers is a
-- parameter.
pub mod CommandLine
pub mod Hardening
use teploy_sandbox.Prelude.{
  ℕ, ◌+◌, ◌/◌, Bool, false, ◌&&◌, ◌||◌, List, [], ◌∷◌, ◌++◌, ltb, ◌==◌, if◌then◌else◌, Text, codes,
  text_eq, is_empty, starts, Table, ℤ, pos, negsuc, is_positive, second,
}
use teploy_sandbox.Run.Types.{Network, network_none, network_allowlist, network_open}
use teploy_sandbox.Run.Paths.{work_dir}
use teploy_sandbox.Run.Manager.Request.{Float, CreateSpec}

-- DockerRuntime.
pub record DockerRuntime : Type 0 where
  pub runtime : Text
  pub shm_mb : ℤ

-- `fmt.Sprintf` with `%d` and with `%g`.
pub record Printer : Type 0 where
  pub decimal : ℤ → Text
  pub float : Float → Text

abbrev pub egress_network : Text
egress_network = codes "teploy-sbx-egress"

abbrev pub drop_capabilities : List Text
drop_capabilities = codes "NET_RAW" ∷ codes "MKNOD" ∷ codes "AUDIT_WRITE" ∷ []

-- The option `name` with each of the values.
options : Text → List Text → List Text
options name [] = []
options name (v ∷ vs) = name ∷ v ∷ options name vs

abbrev pub env_option : Text → Text → List Text
env_option key value = codes "-e" ∷ (key ++ (b'=' ∷ value)) ∷ []

base_args : Printer → CreateSpec → List Text
base_args print spec =
    codes "-d"
    ∷ codes "--name"
    ∷ spec.name
    ∷ codes "--security-opt"
    ∷ codes "no-new-privileges"
    ∷ codes "--memory"
    ∷ (print.decimal spec.memory_mb ++ codes "m")
    ∷ codes "--cpus"
    ∷ print.float spec.cpus
    ∷ codes "--pids-limit"
    ∷ print.decimal spec.pids
    ∷ codes "--label"
    ∷ codes "teploy.sandbox=1"
    ∷ codes "--init"
    ∷ []

runtime_args : Printer → DockerRuntime → List Text
runtime_args print d =
    (if is_empty d.runtime then [] else codes "--runtime" ∷ d.runtime ∷ [])
    ++ ((if text_eq d.runtime (codes "runsc")
          then codes "--annotation" ∷ codes "dev.gvisor.flag.overlay2=none" ∷ []
          else [])
        ++ (if is_positive d.shm_mb
            then codes "--shm-size" ∷ (print.decimal d.shm_mb ++ codes "m") ∷ []
            else []))

proxy_args : Text → List Text
proxy_args url =
    if is_empty url
    then []
    else env_option (codes "HTTP_PROXY") url
      ++ (env_option (codes "HTTPS_PROXY") url
          ++ (env_option (codes "http_proxy") url
              ++ (env_option (codes "https_proxy") url
                  ++ (env_option (codes "NO_PROXY") (codes "localhost,127.0.0.1")
                      ++ env_option (codes "no_proxy") (codes "localhost,127.0.0.1")))))

network_args : CreateSpec → Network → List Text
unfolding proxy_args
network_args spec network_none = codes "--network" ∷ codes "none" ∷ []
network_args spec network_allowlist = codes "--network" ∷ egress_network ∷ proxy_args spec.proxy_url
network_args spec network_open = codes "--network" ∷ codes "bridge" ∷ []

-- A map is ranged over in some order, here that of the table.
env_args : Table Text → List Text
env_args [] = []
env_args (entry ∷ rest) = env_option entry.0 entry.1 ++ env_args rest

volume_args : CreateSpec → List Text
volume_args spec =
    if is_empty spec.cache_host_path
    then []
    else codes "-v" ∷ (spec.cache_host_path ++ (b':' ∷ spec.cache_path)) ∷ []

-- What stands between `run` and the image.
pub create_options : Printer → DockerRuntime → CreateSpec → List Text
unfolding base_args options runtime_args network_args env_args volume_args
create_options print d spec =
    base_args print spec
    ++ (options (codes "--cap-drop") drop_capabilities
        ++ (runtime_args print d
            ++ (network_args spec spec.network ++ (env_args spec.env ++ volume_args spec))))

-- createArgs.
unfoldable pub create_args : Printer → DockerRuntime → CreateSpec → List Text
unfolding create_options
create_args print d spec =
    codes "run" ∷ create_options print d spec
    ++ spec.image
      ∷ codes "sh"
      ∷ codes "-c"
      ∷ (codes "mkdir -p " ++ (work_dir ++ codes " && exec sleep infinity"))
      ∷ []

-- classifyExit: the code, and whether the exec timed out. `timeout` is in nanoseconds.
unfoldable pub classify_exit : ℤ → ℤ → ℤ × Bool
classify_exit code timeout = (code, is_positive timeout && is_timeout_code code)
  where
    is_timeout_code : ℤ → Bool
    is_timeout_code (pos n) = n == 124 || n == 137
    is_timeout_code (negsuc n) = false

abbrev pub exec_timeout_script : Text
exec_timeout_script =
    codes
      "if command -v timeout >/dev/null 2>&1; then exec timeout --kill-after=5s \"$0\" \"$@\"; else echo \"sandbox: image has no timeout tool; refusing an unbounded exec (install coreutils)\" >&2; exit 127; fi"

-- `int(timeout.Round(time.Second).Seconds())`, at least 1, of a positive timeout: halves round up.
unfoldable pub timeout_secs : ℕ → ℕ
timeout_secs timeout = let secs = (timeout + 500000000) / second in if ltb secs 1 then 1 else secs

-- execArgs.
unfoldable pub exec_args : Printer → Text → Text → Text → ℤ → List Text → List Text
unfolding options timeout_secs
exec_args print container dir cmd timeout env_files =
    let head =
      codes "exec"
      ∷ codes "--workdir"
      ∷ dir
      ∷ (options (codes "--env-file") env_files ++ container ∷ []) in
    elim timeout [
      | negsuc n ↦ head ++ codes "sh" ∷ codes "-c" ∷ cmd ∷ []
      | pos n ↦
          if ltb 0 n
          then head
            ++ codes "sh"
              ∷ codes "-c"
              ∷ exec_timeout_script
              ∷ (print.decimal (pos (timeout_secs n)) ++ codes "s")
              ∷ codes "sh"
              ∷ codes "-c"
              ∷ cmd
              ∷ []
          else head ++ codes "sh" ∷ codes "-c" ∷ cmd ∷ []
    ]

abbrev pub snapshot_repo : Text
snapshot_repo = codes "teploy-sbx-snap"

-- ImageIsSnapshot, which never fails.
unfoldable pub image_is_snapshot : Text → Bool
image_is_snapshot image_ref = starts (snapshot_repo ++ codes ":") image_ref
