-- ===== src/Run.antt =====
-- internal/run: the run registry and what it owns.
pub mod Types
pub mod Lease
pub mod Paths
pub mod ExecEnv
pub mod Cache
pub mod Ulid
pub mod Manager
pub mod Runtime
