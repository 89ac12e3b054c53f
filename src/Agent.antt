-- ===== src/Agent.antt =====
-- The Windows agent (agent/src): events in, NDJSON dumps out.
pub mod Platform
pub mod Events
pub mod Inventory
pub mod Correlation
pub mod Emit
pub mod Flusher
pub mod Discover
pub mod Session
pub mod Options
pub mod Identity
pub mod RunId
