-- ===== src/Run/Cache.antt =====
-- internal/run/cache.go: the store of warm templates and of the runs' private volumes.
pub mod Tree
mod Examples
pub mod Store
pub mod Boot
pub mod Lock
pub mod Commit
pub mod Shelf
pub mod Sweep
