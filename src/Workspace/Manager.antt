-- ===== src/Workspace/Manager.antt =====
-- agentiso/src/workspace/mod.rs: the workspace manager, with the parts of agentiso/src/vm/mod.rs and
-- agentiso/src/network/mod.rs that keep its state.
pub mod State
pub mod Host
pub mod Boot
pub mod Create
pub mod Lifecycle
pub mod Fork
pub mod Policy
pub mod Cids
pub mod CidSteps
pub mod Calls
pub mod Moves
pub mod Keeping
pub mod Forking
pub mod Entering
pub mod Changes
pub mod Settings
pub mod Restoring
pub mod CidInvariant
pub mod CidCalls
pub mod CidHistory
pub mod Vms
pub mod VmBoots
pub mod VmStops
pub mod VmCalls
pub mod Guarantees
pub mod History
pub mod Reached
mod Examples
