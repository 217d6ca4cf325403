-- ===== src/Run/ExecEnv.antt =====
-- The check on the environment of an exec (manager.go: ValidateExecEnv, validEnvName).
pub mod Allowed
pub mod File
use teploy_sandbox.Prelude.{
  ℕ, ◌+◌, Bool, false, not, ◌&&◌, ◌||◌, [], ◌∷◌, ltb, leb, ◌==◌, if◌then◌else◌, length, all, Text,
  contains_any, byte_length, Table, Result, ok, err, bad_request,
}

abbrev pub max_exec_env_vars : ℕ
max_exec_env_vars = 64

abbrev pub max_exec_env_bytes : ℕ
max_exec_env_bytes = 65536

pub is_name_start : ℕ → Bool
is_name_start c = c == b'_' || (leb b'A' c && leb c b'Z') || (leb b'a' c && leb c b'z')

pub is_name_char : ℕ → Bool
unfolding is_name_start
is_name_char c = is_name_start c || (leb b'0' c && leb c b'9')

-- validEnvName.
pub valid_env_name : Text → Bool
unfolding is_name_char
valid_env_name [] = false
valid_env_name (c ∷ s) = is_name_start c && all is_name_char s

-- What one round of the loop asks of a variable.
pub is_good_var : Text × Text → Bool
unfolding valid_env_name
is_good_var (name, value) = valid_env_name name && not (contains_any (0 ∷ b'\n' ∷ b'\r' ∷ []) value)

-- `total` of the loop.
pub env_bytes : Table Text → ℕ
env_bytes [] = 0
env_bytes ((name, value) ∷ env) = byte_length name + byte_length value + env_bytes env

-- ValidateExecEnv. The order in which Go ranges over the map does not show: every error is
-- ErrBadRequest.
unfoldable pub validate_exec_env : Table Text → Result (Unit {0})
unfolding is_good_var env_bytes
validate_exec_env env =
    if ltb max_exec_env_vars (length env)
    then err bad_request
    else if not (all is_good_var env)
    then err bad_request
    else if ltb max_exec_env_bytes (env_bytes env)
    then err bad_request
    else ok tt
