-- ===== src/Ingest.antt =====
-- The analytics service, analytics-service/internal.
pub mod Batch
pub mod Told
pub mod Answers
pub mod Hub
pub mod Clients
pub mod Lag
