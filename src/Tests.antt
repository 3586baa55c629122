-- ===== src/Tests.antt =====
-- Concrete runs of the theorems, in the arithmetic of Base/Fixed.
mod StateMachine
mod Detectors
mod Mav
mod Config
mod Fusion
mod Ingest
mod Hw
mod Nav
mod Forensic
mod Launch
