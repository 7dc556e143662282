-- ===== src/Auth.antt =====
-- The accounts of the auth service, auth-service/internal. The rotation of refresh tokens is in
-- Session/Renewal.
pub mod Password
pub mod Accounts
pub mod Lockout
pub mod Registration
