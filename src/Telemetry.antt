-- ===== src/Telemetry.antt =====
-- Telemetry: src/botnet_council/telemetry/publisher.py.
pub mod Bus
pub mod History
