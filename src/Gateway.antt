-- ===== src/Gateway.antt =====
-- The gateway, gateway/internal: its limiter, its headers and the two middlewares.
pub mod Limiter
pub mod Limits
pub mod Windows
pub mod Headers
pub mod Access
pub mod Keys
