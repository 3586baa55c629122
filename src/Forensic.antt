-- ===== src/Forensic.antt =====
-- src/forensic.rs: `ForensicBuffer`, its records and its snapshot; and the life of a dump in
-- `maybe_trigger_forensic_dump` of src/fusion.rs, where a writer is a spawned task. A queue is a list,
-- oldest first. The UTC time and the host's description are left out of a snapshot.
pub mod Trims
pub mod Rings
pub mod Dumps
use flyingsquirrel.Base.{
  ℕ, suc, ◌-◌, Bool, true, false, not, List, [], ◌∷◌, ◌++◌, Option, ltb, if◌then◌else◌,
}
use flyingsquirrel.Base.Floats.{Floats}
use flyingsquirrel.Base.Lists.{length, drop}
use flyingsquirrel.Types.{GpsFix, NavStateKind}
use flyingsquirrel.Nav.Reckoner.{ImuSample}
use flyingsquirrel.Detect.Residual.{Residual}

-- `max` on `usize`.
abbrev pub larger : ℕ → ℕ → ℕ
larger a b = if ltb a b then b else a

module _ (F : Floats) where
  open F use {F32, F64, f64, ceil_usize}

  pub record GpsFixRecord : Type 0 where
    pub t_secs : F64
    pub lat_deg : F64
    pub lon_deg : F64
    pub alt_m : F64
    pub speed_mps : Option F64
    pub course_deg : Option F64
    pub hdop : Option F32
    pub sats : Option ℕ

  unfoldable pub fix_record : F64 → GpsFix F → GpsFixRecord
  fix_record t f = record {
    t_secs = t;
    lat_deg = f.lat_deg;
    lon_deg = f.lon_deg;
    alt_m = f.alt_m;
    speed_mps = f.speed_mps;
    course_deg = f.course_deg;
    hdop = f.hdop;
    sats = f.sats;
  }

  pub record ImuSampleRecord : Type 0 where
    pub t_secs : F64
    pub accel_mps2 : F32 × F32 × F32
    pub gyro_rps : F32 × F32 × F32

  unfoldable pub sample_record : F64 → ImuSample F → ImuSampleRecord
  sample_record t s = record {
    t_secs = t;
    accel_mps2 = (s.accel_x, s.accel_y, s.accel_z);
    gyro_rps = (s.gyro_x, s.gyro_y, s.gyro_z);
  }

  pub record ResidualRecord : Type 0 where
    pub t_secs : F64
    pub dpos_n : F64
    pub dpos_e : F64
    pub mag_pos : F64
    pub mag_vel : F64
    pub dvel_known : Bool
    pub fsm_state : NavStateKind

  unfoldable pub residual_record : F64 → Residual F → NavStateKind → ResidualRecord
  residual_record t r state = record {
    t_secs = t;
    dpos_n = r.dpos.n;
    dpos_e = r.dpos.e;
    mag_pos = r.mag_pos;
    mag_vel = r.mag_vel;
    dvel_known = r.dvel_known;
    fsm_state = state;
  }

  pub record ForensicBuffer : Type 0 where
    pub gps : List GpsFixRecord
    pub imu : List ImuSampleRecord
    pub residuals : List ResidualRecord
    pub window_s : F64
    pub max_imu : ℕ
    pub max_gps : ℕ
    pub max_residuals : ℕ
    pub dump_fired : Bool

  abbrev cap : F64 → F64 → ℕ
  cap window_s rate = larger (ceil_usize (f64.mul (f64.mul window_s rate) (f64.lit 4 0))) 64

  unfoldable pub new : F64 → F64 → ForensicBuffer
  new window_s max_imu_rate_hz = record {
    gps = [];
    imu = [];
    residuals = [];
    window_s = window_s;
    max_imu = cap window_s max_imu_rate_hz;
    max_gps = cap window_s (f64.lit 10 0);
    max_residuals = cap window_s (f64.lit 10 0);
    dump_fired = false;
  }

  -- The queue without the records at its front that are older than the cutoff, of records with a time.
  unfoldable pub drop_old : {R : Type 0} → (R → F64) → F64 → List R → List R
  drop_old time cutoff [] = []
  drop_old time cutoff (r ∷ rs) =
      let rest = drop_old time cutoff rs in if f64.lt (time r) cutoff then rest else r ∷ rs

  abbrev pub drop_excess : {R : Type 0} → ℕ → List R → List R
  drop_excess most rs = drop (length rs - most) rs

  -- `push_back`, and the trim that the three queues write out.
  unfoldable pub push : {R : Type 0} → (R → F64) → F64 → ℕ → List R → F64 → R → List R
  push time window_s most rs now r =
      drop_excess most (drop_old time (f64.sub now window_s) (rs ++ (r ∷ [])))

  unfoldable pub push_gps : ForensicBuffer → F64 → GpsFix F → ForensicBuffer
  push_gps b t fix = record b {
    gps = push (λ r. r.t_secs) b.window_s b.max_gps b.gps t (fix_record t fix);
  }

  unfoldable pub push_imu : ForensicBuffer → F64 → ImuSample F → ForensicBuffer
  push_imu b t sample = record b {
    imu = push (λ r. r.t_secs) b.window_s b.max_imu b.imu t (sample_record t sample);
  }

  unfoldable pub push_residual : ForensicBuffer → F64 → Residual F → NavStateKind → ForensicBuffer
  push_residual b t residual state = record b {
    residuals =
        push (λ r. r.t_secs) b.window_s b.max_residuals b.residuals t
          (residual_record t residual state);
  }

  unfoldable pub try_claim_dump : ForensicBuffer → ForensicBuffer × Bool
  try_claim_dump b = (record b { dump_fired = true }, not b.dump_fired)

  unfoldable pub release_dump_claim : ForensicBuffer → ForensicBuffer
  release_dump_claim b = record b { dump_fired = false }

  pub record ForensicSnapshot : Type 0 where
    pub schema_version : ℕ
    pub captured_at_mono_ns : ℕ
    pub window_s : F64
    pub residuals : List ResidualRecord
    pub gps_fixes : List GpsFixRecord
    pub imu_samples : List ImuSampleRecord

  unfoldable pub snapshot : ForensicBuffer → ℕ → ForensicSnapshot
  snapshot b ns = record {
    schema_version = 1;
    captured_at_mono_ns = ns;
    window_s = b.window_s;
    residuals = b.residuals;
    gps_fixes = b.gps;
    imu_samples = b.imu;
  }
