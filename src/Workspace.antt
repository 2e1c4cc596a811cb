-- ===== src/Workspace.antt =====
-- agentiso/src/workspace: the warm VM pool, the snapshot tree and the workspace manager.
pub mod Pool
pub mod Snapshots
pub mod Ancestors
pub mod Listing
pub mod Children
pub mod Manager
mod Examples
