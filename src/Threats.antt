-- ===== src/Threats.antt =====
-- The threat page, dashboard/src/app/threats/page.tsx, and the map of the command center,
-- dashboard/src/app/page.tsx: what they compute from the window of events.
pub mod Coords
pub mod Jitter
pub mod Markers
pub mod Alerts
pub mod Posture
pub mod Command
pub mod Page
pub mod Rollup
