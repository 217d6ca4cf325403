-- ===== src/Run/Manager.antt =====
-- internal/run/manager.go: the runs and what they own. A run owns a container, and it may own a
-- private volume (internal/run/cache.go) and a private proxy (internal/egress/pool.go).
pub mod Request
pub mod World
pub mod Create
pub mod Destroy
pub mod Reap
pub mod Lifetime
pub mod Snapshots
pub mod Warm
mod Examples
