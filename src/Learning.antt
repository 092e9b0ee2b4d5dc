-- ===== src/Learning.antt =====
-- Weight profiles, the librarian and the teacher: learning/ of the repository.
pub mod Scopes
pub mod Models
pub mod Trials
pub mod Independent
pub mod Librarian
pub mod Applied
pub mod Metrics
pub mod Teacher
pub mod Fair
pub mod Verdicts
pub mod Steps
pub mod Conservative
pub mod Names
pub mod Profiles
pub mod Reviews
pub mod Chained
pub mod Listed
pub mod Nexts
pub mod Histories
