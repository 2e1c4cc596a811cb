-- ===== src/Team.antt =====
-- agentiso/src/team: names of teams and roles, the hierarchy of teams, the message relay and the task
-- board.
pub mod Names
pub mod Relay
pub mod Delivery
pub mod Broadcast
pub mod Hierarchy
pub mod Nesting
pub mod Admission
pub mod Growth
pub mod Board
mod RelayExamples
mod HierarchyExamples
