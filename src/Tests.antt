-- ===== src/Tests.antt =====
-- Runs of the definitions, and each theorem at concrete inputs.
mod Data
mod Execution
mod Council
mod Risk
mod Experiments
mod MarketData
mod Pipeline
mod Telemetry
mod Context
mod Experience
mod Learning
mod Agents
mod Selection
mod Batch
