-- ===== src/Run/ExecEnv/File/Examples.antt =====
-- The environment file at a concrete environment.
use teploy_sandbox.Prelude.{
  ◌≡◌, refl, [], ◌∷◌, Text, codes, text_eq, contains, contains_any, byte_length, Table, lookup, ok,
}
use teploy_sandbox.Run.ExecEnv.{validate_exec_env}
use teploy_sandbox.Run.ExecEnv.File.{sort_vars, exec_env_file}
use teploy_sandbox.Run.ExecEnv.File.ReadBack.{EachOnce, read_env_file, exec_env_file-read}

abbrev env : Table Text
env = (codes "PATH", codes "/bin=/x") ∷ (codes "A", []) ∷ []

env_once : EachOnce env
unfolding EachOnce lookup text_eq
env_once = (refl, (refl, tt))

env_accepted : validate_exec_env env ≡ ok tt
unfolding validate_exec_env contains_any contains byte_length
env_accepted = refl

rendered : exec_env_file env ≡ codes "A=\nPATH=/bin=/x\n"
unfolding exec_env_file sort_vars
rendered = refl

exec_env_file-read_example :
    lookup (codes "PATH") (read_env_file (exec_env_file env)) ≡ lookup (codes "PATH") env
exec_env_file-read_example = exec_env_file-read env (codes "PATH") env_once env_accepted
