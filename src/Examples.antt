-- ===== src/Examples.antt =====
-- The theorems at concrete inputs.
pub mod Data
mod Claims
mod Objects
mod Harnesses
mod Reconciling
mod Controllers
mod Dashboards
mod Serving
mod Relaying
mod Provisioning
mod Redacting
mod Starting
