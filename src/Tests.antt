-- ===== src/Tests.antt =====
-- Runs of the model, and each theorem at a concrete input.
mod Session
mod Live
mod Socket
mod Toasts
mod Demo
mod Threats
mod System
mod Rules
mod Radix
mod Login
mod Feed
mod WorldMap
mod Hud
mod Widgets
mod Shell
mod Gateway
mod Risk
mod Alerts
mod Auth
mod Ingest
