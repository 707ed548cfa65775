-- ===== src/Controllers/Calls.antt =====
-- How many calls of the client one run of a Reconcile method makes.
pub mod Cost
pub mod Parts
pub mod Methods
pub mod Standalone
