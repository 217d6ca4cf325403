-- ===== src/Run/Runtime.antt =====
-- internal/run/runtime.go: what DockerRuntime hands to the docker command, and how it reads the
-- answers. The command itself is not code of the repository.
pub mod Quote
pub mod Args
pub mod Docker
mod Examples
