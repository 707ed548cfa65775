-- ===== src/Examples.antt =====
-- Tests, and the theorems at concrete inputs.
mod World
mod Runs
mod Objects
mod Builders
mod Outcomes
mod Deployments
mod Watching
mod Cooperation
mod Convergence
mod Starting
mod Carried
mod Costs
mod Containers
mod Alone
mod Together
