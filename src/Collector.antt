-- ===== src/Collector.antt =====
-- The collector (collector/src): NDJSON dumps in, an archive and a database out.
pub mod Ingest
pub mod Archive
pub mod Db
pub mod Server
pub mod Query
pub mod Options
pub mod Clock
