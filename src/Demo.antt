-- ===== src/Demo.antt =====
-- The simulated telemetry, dashboard/src/lib/demo.ts. Numbers of the generator are exact: a draw is
-- n / 2 ^ 32, and a score, computed from one by a product and a sum, has the same denominator.
pub mod Rollups
pub mod Buckets
pub mod Random
pub mod Pick
pub mod Tables
pub mod Event
pub mod Bands
pub mod Backfill
pub mod History
