-- ===== src/Controllers/Success.antt =====
-- What the Reconcile methods have seen when they succeed.
pub mod Cluster
pub mod Tenant
pub mod Standalone
