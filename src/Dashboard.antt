-- ===== src/Dashboard.antt =====
-- The page that shows the fleet, and the config map that holds it.
pub mod Opening
pub mod Closing
pub mod Card
pub mod Page
pub mod Update
pub mod Loop
pub mod Escaping
pub mod Steps
pub mod Laws
pub mod Frames
pub mod Whole
