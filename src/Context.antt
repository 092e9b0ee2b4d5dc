-- ===== src/Context.antt =====
-- Market context: context/ of the repository.
pub mod Capabilities
pub mod Models
pub mod Providers
pub mod Service
pub mod Dispatch
pub mod Sequenced
pub mod Kept
pub mod Cached
pub mod Causal
pub mod Consulted
