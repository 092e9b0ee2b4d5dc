-- ===== src/Risk.antt =====
-- The deterministic risk governor (src/botnet_council/risk/governor.py).
pub mod Policy
pub mod Causal
pub mod Restrictions
pub mod Evaluate
pub mod Reconcile
pub mod Timely
pub mod Approval
pub mod Reconciled
pub mod Total
