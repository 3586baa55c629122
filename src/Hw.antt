-- ===== src/Hw.antt =====
-- src/hw: the decisions of the hardware drivers that do no input or output themselves.
pub mod AxisMap
pub mod NmeaCodec
pub mod NmeaLink
pub mod Mpu6050
pub mod NmeaSentence
pub mod SerialGps
pub mod I2cImu
