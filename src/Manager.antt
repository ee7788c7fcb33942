-- ===== src/Manager.antt =====
-- The package manager (custom_components/hubinet_ops/packages/manager.py).
pub mod State
pub mod Scan
pub mod Health
pub mod Update
pub mod Conclude
pub mod Removed
pub mod Restore
pub mod Prune
pub mod Accept
pub mod Stored
pub mod Publish
pub mod Heard
pub mod Reentry
pub mod Evidence
pub mod Fence
pub mod Exclusion
pub mod Ownership
pub mod Lifecycle
pub mod Cases
pub mod Examples
