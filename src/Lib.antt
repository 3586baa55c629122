-- ===== src/Lib.antt =====
-- A verification library for flyingsquirrel, a companion-computer program that detects GPS spoofing
-- on a drone by comparing GPS fixes with inertial dead reckoning, and then cuts the autopilot off
-- from GPS and orders it home.
--
-- The program's parts and the files that model them (paths from the repository's root):
--
--   src/types.rs                 Types
--   src/detect/mod.rs            Detect/Config
--   src/detect/residual.rs       Detect/Residual: the snapshot buffer and its interpolation
--   src/detect/jump.rs           Detect/Jump: velocity mismatch with persistence, hard residual
--   src/detect/drift.rs          Detect/Drift: CUSUM lanes above learned noise floors
--   src/detect/state_machine.rs  Detect/StateMachine: Normal, Suspicious, latched Spoofed
--   src/mav/monitor.rs           Mav/Modes and Mav/Monitor: telemetry, mode encodings, source lock
--   src/mav/controller.rs        Mav/Controller: sever GPS, engage RTL, and their read-backs
--   src/mav/mod.rs               Mav/Ingest: messages to fixes and samples; Mav/Clock: ClockAligner;
--                                Mav/Listener: the loop of spawn_listener; Mav/Watchdog
--   src/nav/mod.rs               Nav/Config, Nav/Frame; Nav/DeadReckoner, whose child Imu has `step`;
--                                Nav/Reckoner is the interface that the fusion task takes of it
--   src/nav/attitude.rs          Nav/Attitude: the Madgwick filter
--   src/nav/strapdown.rs         Nav/Strapdown: integration and bias estimation
--   src/hw/axis_map.rs           Hw/AxisMap: the board's orientation
--   src/hw/nmea_link.rs          Hw/NmeaCodec: framing; Hw/NmeaLink: the link's health
--   src/ingest/nmea.rs           Hw/NmeaSentence: sentences to fixes
--   src/hw/serial_gps.rs         Hw/SerialGps: a connection's loop, which joins the three above
--   src/hw/mpu6050.rs            Hw/Mpu6050: raw frames and the escalation of failing reads
--   src/hw/i2c_imu.rs            Hw/I2cImu: the driver's loop over them
--   src/config.rs                Launch/Config: the file's sections, defaults and refused bypasses
--   src/bin/flyingsquirrel.rs    Launch/Options, Launch/Cli: options and their merge with the file;
--                                Launch/Startup: `run` up to the MAVLink socket;
--                                Launch/Printed: what --print-config prints
--   src/forensic.rs              Forensic: the rings, the snapshot and the claim on the one dump
--   src/fusion.rs                Fusion/Config: FusionConfig::validate; Fusion/Task: the task's state,
--                                pre-flight gate, on_imu and operator's reset; Fusion/Anomalies,
--                                Fusion/Residuals, Fusion/Verdict and Fusion/Gps: on_gps
--
-- The child modules prove what their names say (Detect/StateMachine/Pause, Mav/Monitor/Source, ...).
-- Base holds the shared helpers: Boolean tests, lists, integers, bounded association maps, floats.
--
-- How the code is read. A method that mutates `self` returns the new state, with its result where it
-- has one. A method of many stages is a chain of definitions, one for each stage, composed in the
-- code's order. `evaluate` of the state machine is `book_dropout` (the dwell pause), then `judge`:
-- `run_detectors`, `detector_firing`, `sample_clean`, and `settle` for the `match`. An early
-- return is a branch. `Vec` and `VecDeque` are lists with the oldest element first, `HashMap` is an
-- association list in which a key stands at most once.
--
-- Numbers. `u8`, `u16`, `u32` and `u64` are natural numbers; saturating increments and truncating
-- casts are written out. `f32` and `f64` are a record of operations (Base/Floats), a parameter of all
-- definitions, so no rounding is assumed away; a theorem that needs facts of the arithmetic
-- takes `Laws`, facts of IEEE 754 comparison and maximum that also hold for NaN and infinities.
-- Base/Fixed is a concrete arithmetic with a NaN that satisfies them, and Tests runs on it. A time is
-- nanoseconds since boot, or its `as_secs_f64`.
--
-- The task is generic over the dead reckoner, whose operations are the interface Nav/Reckoner. A handler
-- returns the new state and its effects in order: events of the stream, calls of the controller,
-- spawned read-backs and dumps. What it reads from outside (the clock, the shared monitor, whether
-- the dump's slot is claimed, how the two actions turn out) is an argument, `World`. The body of
-- on_gps is `route`: `first_fix`, `gated_fix`, or `track`, which aligns the fix with the buffer
-- (`align`) and then runs the stages of `assess`. The biased select of the loop is any order of inputs.
--
-- The read-backs poll the monitor until a deadline. A run of polls is a list, each with the monitor
-- as it stood and whether the deadline had passed; `none` means that the list ended first. The
-- outcome of each send is a list of results. The byte that the `mavlink` crate gives a parameter type is an argument.
--
-- The listener's loop takes the results of recv_from as a list; the parsers of the `mavlink` and `nmea`
-- crates and the rotations of the `nalgebra` crate are arguments. The NMEA codec is decoded until it has no event, on
-- fuel of one more than the buffer's length, which is enough because every event consumes a byte.
--
-- Not modelled: the reports of spawned tasks, the pushes of the fusion task into the forensic ring, the
-- port and bus I/O of src/hw, the writing of a dump; and, as pure I/O, the simulator and watch binaries, task
-- start-up, logging, attestation and simulation.
pub mod Base
pub mod Types
pub mod Detect
pub mod Mav
pub mod Nav
pub mod Fusion
pub mod Hw
pub mod Launch
pub mod Forensic
mod Tests
