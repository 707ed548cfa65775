-- ===== src/Reconcile.antt =====
-- operator/controllers/utils.go: validation, the annotations that carry a config version, events, and
-- the functions that bring one object to its desired state.
pub mod Validate
pub mod Hash
pub mod Annotations
pub mod Events
pub mod ConfigMaps
pub mod Services
pub mod StatefulSets
pub mod Pdbs
pub mod Settled
pub mod Footprint
pub mod Versions
pub mod Collisions
pub mod Recounts
