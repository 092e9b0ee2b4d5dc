-- ===== src/Pipeline.antt =====
-- The composition of research and trading: src/botnet_council/pipeline.py.
pub mod World
pub mod Desk
pub mod Run
pub mod Stays
pub mod Keeps
pub mod Gives
pub mod Authorized
pub mod Contextual
pub mod Requested
