-- ===== src/MarketData.antt =====
-- Historical market data: src/botnet_council/market_data/ (models.py, quality.py, in_memory.py).
pub mod Models
pub mod Quality
pub mod InMemory
pub mod Causal
pub mod Normal
pub mod Coverage
