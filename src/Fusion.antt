-- ===== src/Fusion.antt =====
-- src/fusion.rs: the task that joins GPS, IMU, detectors and actions.
pub mod Config
pub mod Task
pub mod Residuals
pub mod Anomalies
pub mod Verdict
pub mod Gps
