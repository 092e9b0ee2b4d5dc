-- ===== src/Schemas.antt =====
-- The data that the components exchange (src/botnet_council/schemas.py), with the checks that
-- Pydantic runs when a value is built.
pub mod Enums
pub mod Market
pub mod Signal
pub mod Order
