-- ===== src/Shell.antt =====
-- The frame around the pages: dashboard/src/components/layout and dashboard/src/components/live.
pub mod Gate
pub mod Ticker
pub mod Arrival
pub mod TopBar
