-- ===== src/Experience.antt =====
-- Experience episodes and their store: experience/ of the repository.
pub mod Models
pub mod Episode
pub mod Names
pub mod Store
pub mod Queries
pub mod Kept
pub mod Saved
pub mod Split
