-- ===== src/Orchestrate/Kahn.antt =====
-- The order that `validate_team_dag` of agentiso/src/workspace/orchestrate.rs gives.
pub mod Sorting
pub mod Degrees
pub mod Loop
pub mod Graph
pub mod Build
pub mod Sources
pub mod Runs
pub mod Order
