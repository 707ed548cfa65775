-- ===== src/Concurrent.antt =====
-- Reconciliations that run at the same time, as those of several tenants do
-- (operator/controllers/hbasetenant_controller.go, MaxConcurrentReconciles), and share the hash store.
pub mod Program
pub mod StatefulSets
pub mod Pdbs
pub mod Services
pub mod ConfigMaps
pub mod Honest
pub mod Justified
pub mod Jobs
