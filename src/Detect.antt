-- ===== src/Detect.antt =====
-- src/detect: the residual buffer, the two detectors and the state machine over them.
pub mod Config
pub mod Residual
pub mod Jump
pub mod Drift
pub mod StateMachine
