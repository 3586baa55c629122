-- ===== src/Mav.antt =====
-- src/mav: the flight modes, the monitor of the autopilot's messages, and the controller's two
-- closed-loop confirmations.
pub mod Clock
pub mod Ingest
pub mod Listener
pub mod Watchdog
pub mod Modes
pub mod Monitor
pub mod Controller
