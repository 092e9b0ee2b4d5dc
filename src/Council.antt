-- ===== src/Council.antt =====
-- The deterministic council (src/botnet_council/council/aggregator.py).
pub mod Aggregator
pub mod Unordered
pub mod Decision
