-- ===== src/Audit.antt =====
-- crates/audit: the worker that writes the logs in batches.
mod Tests
pub mod Sink
