-- ===== src/Auth/Tests.antt =====
-- The auth service on concrete accounts.
pub mod Store
mod Rotation
mod Codes
mod Accounts
mod Requests
