-- ===== src/Execution.antt =====
-- The simulator of fills (src/botnet_council/execution/paper.py).
pub mod Paper
pub mod Marking
pub mod Filling
pub mod State
pub mod Atomic
pub mod Marked
pub mod Trace
