-- ===== src/Alerts.antt =====
-- The alert service, alert-service.
pub mod Gate
pub mod Rates
pub mod Dispatch
pub mod Delivery
pub mod Consumer
