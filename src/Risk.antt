-- ===== src/Risk.antt =====
-- The risk engine, risk-engine/app.
pub mod Admin
pub mod Repo
pub mod Engine
pub mod Firing
pub mod Api
pub mod Refusals
pub mod Coherence
pub mod Scores
pub mod Bounds
pub mod Decision
pub mod Scoring
