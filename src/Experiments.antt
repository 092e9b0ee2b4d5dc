-- ===== src/Experiments.antt =====
-- Historical experiments: src/botnet_council/experiments/.
pub mod Models
pub mod Context
pub mod Forecasting
pub mod Oracle
pub mod Lifecycle
pub mod Repository
pub mod Attempt
pub mod Service
pub mod Composed
pub mod Moves
pub mod Blind
pub mod Lookahead
pub mod Ordered
pub mod Lawful
pub mod Reached
pub mod Histories
pub mod Selection
pub mod Selected
pub mod Batch
pub mod Counted
