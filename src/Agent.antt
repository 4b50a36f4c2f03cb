-- ===== src/Agent.antt =====
-- internal/controller/clawagent_controller.go: the controller of agents. Each child is one of the
-- file's parts; `Reconcile` puts them together.
pub mod Labels
pub mod Volume
pub mod Resize
pub mod Storage
pub mod Secrets
pub mod Deployment
pub mod Config
pub mod Ensure
pub mod References
pub mod Status
pub mod Watch
pub mod Reconcile
