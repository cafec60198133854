-- ===== src/Team.antt =====
-- modules/team-access and the guard common/guards/inverter-role.guard.ts: who may use an inverter.
pub mod Member
pub mod Backend
pub mod Access
pub mod Guard
pub mod Lifecycle
mod Tests
