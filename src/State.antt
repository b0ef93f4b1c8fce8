-- ===== src/State.antt =====
-- pkg/state: the canonical state of the Hub. Keys, the normalised projection and its operations, the
-- coordinator that owns it, and the reconciler that turns discovered hosts into operations.
pub mod Keys
pub mod Values
pub mod Projection
pub mod Commit
pub mod Coordinator
pub mod Reconcile
pub mod Adapters
mod Tests
