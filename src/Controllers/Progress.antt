-- ===== src/Controllers/Progress.antt =====
-- How far a server is from what a custom resource asks for: the objects that are wanted, and a
-- measure of what is left to do that every reconciliation makes smaller until it succeeds.
pub mod Server
pub mod Measure
pub mod Advance
pub mod Objects
pub mod ConfigMaps
pub mod Rollouts
pub mod Wants
pub mod Parts
pub mod Methods
