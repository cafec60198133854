-- ===== src/Alerts.antt =====
-- src/modules/alerts: from a metric to a delivered alert.
pub mod QuietHours
pub mod Depletion
pub mod Thresholds
pub mod Entity
pub mod Backend
pub mod Suppression
pub mod Detection
pub mod Fallback
pub mod Whatsapp
pub mod Dispatch
pub mod Tally
pub mod Service
pub mod Memory
