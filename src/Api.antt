-- ===== src/Api.antt =====
-- internal/api: the server behind the web console.
pub mod Types
pub mod Http
pub mod Paths
pub mod Crud
pub mod Chat
pub mod Logs
pub mod Server
pub mod Activity
pub mod Routes
pub mod Laws
pub mod Removal
pub mod Addresses
pub mod Feed
pub mod Routing
pub mod Reachable
