-- ===== src/Network.antt =====
-- agentiso/src/network: the allocation of guest addresses.
pub mod Ip
pub mod Allocation
pub mod Exhaustion
pub mod Reuse
mod Examples
