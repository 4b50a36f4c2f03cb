-- ===== src/Observability.antt =====
-- The controller of observability: its objects and its reconciliation.
pub mod Objects
pub mod Reconcile
pub mod Laws
pub mod Keeps
pub mod WellFormed
