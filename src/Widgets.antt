-- ===== src/Widgets.antt =====
-- The number, the gauge and the metric card, dashboard/src/components/ui.
pub mod Tween
pub mod Tweens
pub mod Shown
pub mod Gauge
pub mod Metric
pub mod Format
