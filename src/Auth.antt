-- ===== src/Auth.antt =====
-- agentiso/src/mcp/auth.rs: sessions, workspace ownership, quotas and bridge tokens. Each child
-- models one group of methods of `AuthManager`, or proves one kind of property of them. The lock
-- on the session map is held for the whole of each method, so a method is one step on the state;
-- `Utc::now()` is an argument, in nanoseconds since the epoch.
pub mod State
pub mod Workspaces
pub mod Adoption
pub mod Tokens
pub mod Persistence
pub mod Cases
pub mod Owners
pub mod Ownership
pub mod Exclusive
pub mod Refusals
pub mod TokenLaws
pub mod Orphans
pub mod RoundTrip
mod Examples
pub mod History
pub mod Quota
