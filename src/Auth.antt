-- ===== src/Auth.antt =====
-- modules/auth, and what it uses of common: common/redis/redis.service.ts and common/utils.
pub mod Redis
pub mod Backend
pub mod Redirect
pub mod Tokens
pub mod Service
pub mod Passwords
pub mod Signin
mod Tests
