-- ===== src/Controllers.antt =====
-- operator/controllers: the Reconcile methods of the three controllers, and the steps they share.
pub mod Steps
pub mod Cluster
pub mod Tenant
pub mod Standalone
pub mod Contract
pub mod Whole
pub mod Requests
pub mod OneChange
pub mod Honest
pub mod Blocked
pub mod Ready
pub mod Success
pub mod Deployed
pub mod Progress
pub mod Calls
pub mod CarryOver
pub mod Converges
