-- ===== src/Monitoring.antt =====
-- The monitoring service.
pub mod Floats
pub mod Alerts
pub mod RingBuffer
pub mod Collector
pub mod Windows
pub mod Aggregator
pub mod Detector
pub mod Rules
pub mod Service
