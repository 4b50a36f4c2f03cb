-- ===== src/Kube.antt =====
-- Kubernetes: the objects, their equality, and how the controllers write them.
pub mod Objects
pub mod Equality
pub mod Defaults
pub mod Build
pub mod WellFormed
