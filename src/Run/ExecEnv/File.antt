-- ===== src/Run/ExecEnv/File.antt =====
-- The file that an exec's environment is handed to docker in (runtime.go: execEnvFile).
pub mod ReadBack
mod Examples
use teploy_sandbox.Prelude.{
  Bool, true, false, ◌&&◌, ◌||◌, [], ◌∷◌, ◌++◌, ltb, ◌==◌, if◌then◌else◌, Text, Table,
}

-- The order of sort.Strings.
text_before : Text → Text → Bool
text_before [] [] = false
text_before [] (d ∷ t) = true
text_before (c ∷ s) [] = false
text_before (c ∷ s) (d ∷ t) = ltb c d || (c == d && text_before s t)

place : Text × Text → Table Text → Table Text
unfolding text_before
place var [] = var ∷ []
place var (first ∷ rest) =
    let later = place var rest in
    if text_before var.0 first.0 then var ∷ first ∷ rest else first ∷ later

-- The variables in the order of their names.
unfoldable pub sort_vars : Table Text → Table Text
unfolding place
sort_vars [] = []
sort_vars (var ∷ rest) = place var (sort_vars rest)

write_vars : Table Text → Text
write_vars [] = []
write_vars (var ∷ rest) = (var.0 ++ (b'=' ∷ var.1)) ++ (b'\n' ∷ write_vars rest)

-- execEnvFile.
unfoldable pub exec_env_file : Table Text → Text
unfolding sort_vars write_vars
exec_env_file env = write_vars (sort_vars env)
