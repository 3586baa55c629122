-- ===== src/Nav.antt =====
-- src/nav: the dead reckoner, its parts, and the interface that the fusion task uses of it.
pub mod Config
pub mod Frame
pub mod Reckoner
pub mod Attitude
pub mod Strapdown
pub mod DeadReckoner
