-- ===== src/Gateway.antt =====
-- The controller of gateways: its objects, the text of the server that it runs, its reconciliation.
pub mod Script
pub mod Objects
pub mod Server
pub mod Reconcile
pub mod Laws
pub mod WellFormed
