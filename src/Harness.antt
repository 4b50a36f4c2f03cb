-- ===== src/Harness.antt =====
-- internal/harness: the agent runtimes. `Json` is the value that a harness hands to `encoding/json`;
-- the registry picks a harness by its type.
pub mod Json
pub mod Contract
pub mod OpenClaw
pub mod Hermes
pub mod Registry
