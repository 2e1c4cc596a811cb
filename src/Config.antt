-- ===== src/Config.antt =====
-- agentiso/src/config.rs: the configuration, its defaults and its validation.
pub mod Services
pub mod Sections
pub mod Validate
pub mod Guarantees
pub mod Datasets
mod Examples
