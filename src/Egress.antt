-- ===== src/Egress.antt =====
-- internal/egress: the allowlist that a run's traffic passes, and the proxies that apply it.
pub mod Address
pub mod Ip
pub mod Allowlist
pub mod Entry
pub mod Pool
pub mod Proxy
mod Examples
