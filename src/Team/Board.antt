-- ===== src/Team/Board.antt =====
-- agentiso/src/team/task_board.rs: the tasks of a team and their dependencies.
pub mod Task
pub mod Dependencies
pub mod Order
pub mod Progress
pub mod Markdown
pub mod Notes
pub mod Lines
pub mod RoundTrip
pub mod Actions
pub mod Claims
pub mod Transitions
mod Examples
