-- ===== src/Mav/Ingest.antt =====
-- src/mav/mod.rs: what the code reads of MAVLink messages, and their conversion to fixes and samples.
-- A message is given by the fields that are read of it, as the `mavlink` crate decodes them; the
-- messages that no code reads are `other`. `now` is the local instant of the call.
use flyingsquirrel.Base.{
  ℕ, ◌*◌, Bool, true, false, not, ◌&&◌, ◌||◌, List, Option, none, some, ltb, leb, ◌==◌,
  if◌then◌else◌, u8_max, u16_max,
}
use flyingsquirrel.Base.Int.{ℤ}
use flyingsquirrel.Base.Floats.{Floats, Float}
use flyingsquirrel.Types.{GpsFix}
use flyingsquirrel.Nav.Reckoner.{ImuSample}

pub data MavlinkVersion : Type 0 where
  v1 v2 : MavlinkVersion

unfoldable pub mavlink_version_of : ℕ → MavlinkVersion
mavlink_version_of magic =
    if magic == 253
    then MavlinkVersion.v2
    else if magic == 254
    then MavlinkVersion.v1
    else MavlinkVersion.v2

pub record GpsRawInt : Type 0 where
  pub time_usec : ℕ
  pub fix_type : ℕ
  pub lat : ℤ
  pub lon : ℤ
  pub alt : ℤ
  pub eph : ℕ
  pub vel : ℕ
  pub cog : ℕ
  pub satellites_visible : ℕ

pub record ScaledImu : Type 0 where
  pub time_boot_ms : ℕ
  pub xacc : ℤ
  pub yacc : ℤ
  pub zacc : ℤ
  pub xgyro : ℤ
  pub ygyro : ℤ
  pub zgyro : ℤ

-- The value if it is known: `none` where `unknown` holds.
abbrev pub unless {ℓ} : {A : Type ℓ} → Bool → A → Option A
unless unknown a = if unknown then none else some a

module _ (F : Floats) where
  open F use {F32, F64, f32, f64}

  pub record HighresImu : Type 0 where
    pub time_usec : ℕ
    pub xacc : F32
    pub yacc : F32
    pub zacc : F32
    pub xgyro : F32
    pub ygyro : F32
    pub zgyro : F32

  pub record HeartbeatMsg : Type 0 where
    pub custom_mode : ℕ
    pub base_mode : ℕ
    pub system_status : ℕ
    pub autopilot : ℕ

  pub data MavMessage : Type 0 where
    heartbeat : HeartbeatMsg → MavMessage
    command_ack : ℕ → ℕ → MavMessage
    param_value : List ℕ → F32 → ℕ → MavMessage
    gps_raw_int : GpsRawInt → MavMessage
    highres_imu : HighresImu → MavMessage
    scaled_imu scaled_imu2 scaled_imu3 : ScaledImu → MavMessage
    other : MavMessage

  abbrev fix_of : ℕ → GpsRawInt → GpsFix F
  fix_of now g = record {
    mono_ns = now;
    lat_deg = f64.mul (f64.of_ℤ g.lat) (f64.lit 1 7);
    lon_deg = f64.mul (f64.of_ℤ g.lon) (f64.lit 1 7);
    alt_m = f64.mul (f64.of_ℤ g.alt) (f64.lit 1 3);
    speed_mps = unless (g.vel == u16_max) (f64.mul (f64.of_ℕ g.vel) (f64.lit 1 2));
    course_deg =
        unless (g.cog == u16_max || ltb 35999 g.cog) (f64.mul (f64.of_ℕ g.cog) (f64.lit 1 2));
    hdop = unless (g.eph == u16_max) (f32.mul (f32.of_ℕ g.eph) (f32.lit 1 2));
    sats = unless (g.satellites_visible == u8_max) g.satellites_visible;
  }

  unfoldable pub gps_from_msg : ℕ → MavMessage → Option (GpsFix F)
  gps_from_msg now (MavMessage.gps_raw_int g) =
      if leb 2 g.fix_type then some (fix_of now g) else none
  gps_from_msg now _ = none

  -- `xacc as f32 * 1e-3 * G_MPS2` and `xgyro as f32 * 1e-3`.
  abbrev milli_g : ℤ → F32
  milli_g z = f32.mul (f32.mul (f32.of_ℤ z) (f32.lit 1 3)) (f32.lit 980665 5)

  abbrev milli : ℤ → F32
  milli z = f32.mul (f32.of_ℤ z) (f32.lit 1 3)

  abbrev scaled_sample : ℕ → ScaledImu → ImuSample F
  scaled_sample now i = record {
    mono_ns = now;
    accel_x = milli_g i.xacc;
    accel_y = milli_g i.yacc;
    accel_z = milli_g i.zacc;
    gyro_x = milli i.xgyro;
    gyro_y = milli i.ygyro;
    gyro_z = milli i.zgyro;
  }

  abbrev highres_sample : ℕ → HighresImu → ImuSample F
  highres_sample now i = record {
    mono_ns = now;
    accel_x = i.xacc;
    accel_y = i.yacc;
    accel_z = i.zacc;
    gyro_x = i.xgyro;
    gyro_y = i.ygyro;
    gyro_z = i.zgyro;
  }

  unfoldable pub imu_from_msg : ℕ → MavMessage → Option (ImuSample F)
  imu_from_msg now (MavMessage.highres_imu i) = some (highres_sample now i)
  imu_from_msg now (MavMessage.scaled_imu i) = some (scaled_sample now i)
  imu_from_msg now (MavMessage.scaled_imu2 i) = some (scaled_sample now i)
  imu_from_msg now (MavMessage.scaled_imu3 i) = some (scaled_sample now i)
  imu_from_msg now _ = none

  unfoldable pub gps_sensor_us : MavMessage → Option ℕ
  gps_sensor_us (MavMessage.gps_raw_int g) = unless (g.time_usec == 0) g.time_usec
  gps_sensor_us _ = none

  abbrev boot_us : ℕ → Option ℕ
  boot_us time_boot_ms = unless (time_boot_ms == 0) (time_boot_ms * 1000)

  unfoldable pub imu_sensor_us : MavMessage → Option ℕ
  imu_sensor_us (MavMessage.highres_imu i) = unless (i.time_usec == 0) i.time_usec
  imu_sensor_us (MavMessage.scaled_imu i) = boot_us i.time_boot_ms
  imu_sensor_us (MavMessage.scaled_imu2 i) = boot_us i.time_boot_ms
  imu_sensor_us (MavMessage.scaled_imu3 i) = boot_us i.time_boot_ms
  imu_sensor_us _ = none

  -- Neither non-finite nor of a magnitude above the bound.
  abbrev pub within : {A : Type 0} → Float A → A → A → Bool
  within f bound x = f.is_finite x && not (f.lt bound (f.abs x))

  abbrev pub speed_is_plausible : Option F64 → Bool
  speed_is_plausible none = true
  speed_is_plausible (some s) = within f64 (f64.lit 1000 0) s

  abbrev pub course_is_plausible : Option F64 → Bool
  course_is_plausible none = true
  course_is_plausible (some c) =
      f64.is_finite c && (f64.le (f64.neg (f64.lit 720 0)) c && f64.le c (f64.lit 720 0))

  unfoldable pub gps_fix_is_plausible : GpsFix F → Bool
  gps_fix_is_plausible f =
      if not (f64.is_finite f.lat_deg && (f64.is_finite f.lon_deg && f64.is_finite f.alt_m))
      then false
      else if f64.lt (f64.lit 90 0) (f64.abs f.lat_deg)
          || f64.lt (f64.lit 180 0) (f64.abs f.lon_deg)
      then false
      else if f64.lt (f64.lit 100000 0) (f64.abs f.alt_m)
      then false
      else speed_is_plausible f.speed_mps && course_is_plausible f.course_deg

  unfoldable pub imu_sample_is_plausible : ImuSample F → Bool
  imu_sample_is_plausible s =
      within f32 (f32.lit 200 0) s.accel_x
      && (within f32 (f32.lit 200 0) s.accel_y
          && (within f32 (f32.lit 200 0) s.accel_z
              && (within f32 (f32.lit 35 0) s.gyro_x
                  && (within f32 (f32.lit 35 0) s.gyro_y && within f32 (f32.lit 35 0) s.gyro_z))))
