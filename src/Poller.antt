-- ===== src/Poller.antt =====
-- modules/metrics-stream/poller: which inverters are polled, and what a poll does.
pub mod Tracker
pub mod Credentials
pub mod Polling
mod Tests
