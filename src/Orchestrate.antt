-- ===== src/Orchestrate.antt =====
-- agentiso/src/workspace/orchestrate.rs: the plans of a batch of tasks and of a team, their checks,
-- and the order in which a team's tasks run.
pub mod Plan
pub mod Load
pub mod TeamDag
pub mod PlanChecks
pub mod Kahn
mod Examples
