-- ===== src/Mem.antt =====
-- mem.go: the in-memory pool, its stores and their operations.
pub mod Refs
pub mod State
pub mod Store
pub mod Invariant
pub mod Keeping
pub mod Views
pub mod Adds
pub mod Effects
pub mod Staging
pub mod Settling
pub mod Pruning
pub mod Pruned
pub mod Lifecycle
pub mod Transitions
pub mod Uploads
pub mod Checkpoints
