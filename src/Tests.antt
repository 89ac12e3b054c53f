-- ===== src/Tests.antt =====
-- Runs of the model at small concrete inputs.
pub mod Agent
pub mod Collector
pub mod Database
pub mod Server
pub mod Archive
pub mod Capture
pub mod Api
pub mod Walks
pub mod Delivery
pub mod Clock
pub mod Startup
pub mod Keys
pub mod Series
pub mod Final
pub mod Emission
