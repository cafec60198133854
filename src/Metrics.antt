-- ===== src/Metrics.antt =====
-- modules/inverters-metrics: what is derived from the readings of an inverter.
pub mod Health
pub mod Fuel
pub mod Insights
