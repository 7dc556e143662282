-- ===== src/Hud.antt =====
-- The interface chrome, dashboard/src/components/hud/HUDAmbientLayer.tsx.
pub mod Frames
pub mod Loops
pub mod Particles
pub mod Links
pub mod Canvas
pub mod Boot
pub mod BootTime
pub mod Readouts
