-- ===== src/Run/Types.antt =====
-- The data of internal/run/manager.go and internal/run/lease.go: a run, its lease, the credential
-- of a fenced call, and the registry `Manager.runs`.
use teploy_sandbox.Prelude.{ℕ, ◌*◌, Bool, Option, Text, Table, second}

-- NetworkNone, NetworkAllowlist and NetworkOpen.
pub data Network : Type 0 where
  network_none network_allowlist network_open : Network

-- Lease times are nanoseconds since year 1.
pub record LeaseState : Type 0 where
  pub holder : Text
  pub generation : ℕ
  pub expires_at : ℕ

-- The zero value, `record { owner = []; generation = 0 }`, is "no credential".
pub record LeaseCredential : Type 0 where
  pub owner : Text
  pub generation : ℕ

pub record WarmState : Type 0 where
  pub repo : Text
  pub booted : Bool
  pub lock_hash : Text
  pub repo_dir : Text

-- `lease_gen` is a uint64. `execs` counts goroutines that are inside an exec or a write; there are
-- never 2 ^ 63 of them, so it is kept as a number.
pub record Run : Type 0 where
  pub id : Text
  pub image : Text
  pub network : Network
  pub container_id : Text
  pub warm : Option WarmState
  pub cache_dir : Text
  pub cache_path : Text
  pub created_at : ℕ
  pub expires_at : ℕ
  pub lease : Option LeaseState
  pub lease_gen : ℕ
  pub execs : ℕ

-- `Manager.runs`. The map holds pointers and every mutation of a run is made under `Manager.mu`, to
-- a run that was looked up under the same lock, so a mutation is an update of the table.
abbrev pub Registry : Type 0
Registry = Table Run

-- In nanoseconds.
abbrev pub max_ttl : ℕ
max_ttl = 24 * 3600 * second

abbrev pub default_ttl : ℕ
default_ttl = 30 * 60 * second

-- WarmManifest.
pub record WarmManifest : Type 0 where
  pub repo : Text
  pub lock_hash : Text
  pub repo_dir : Text
  pub gen : Text
  pub created_at : ℕ
