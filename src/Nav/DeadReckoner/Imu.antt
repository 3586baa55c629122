-- ===== src/Nav/DeadReckoner/Imu.antt =====
-- src/nav/mod.rs: `DeadReckoner::step`, the IMU's side of the reckoner. The two rotations by a
-- quaternion are the `nalgebra` crate's, and parameters.
use flyingsquirrel.Base.{
  ℕ, ◌+◌, ◌-◌, Bool, true, false, not, ◌&&◌, ◌||◌, Option, none, some, ltb, leb, ◌==◌,
  if◌then◌else◌, or_else, saturating_inc, u32_max,
}
use flyingsquirrel.Base.Floats.{Floats, nought, clamp}
use flyingsquirrel.Types.{is_normal}
use flyingsquirrel.Detect.Residual.{Snapshot}
use flyingsquirrel.Nav.Reckoner.{ImuSample}
use flyingsquirrel.Nav.Attitude.{Quaternion, Vec3, init_from_accel, update_with_lin_accel}
use flyingsquirrel.Nav.Strapdown.{NedAccel, integrate, observe, correct_and_update_accel_ned}
use flyingsquirrel.Nav.DeadReckoner.{DeadReckoner, is_initialized}

abbrev pub imu_starvation_skip_threshold : ℕ
imu_starvation_skip_threshold = 25

module _ (F : Floats) where
  open F use {F32, F64, f32, f64, narrow, widen, secs, to_usize}

  abbrev pub default_max_imu_dt_s : F32
  default_max_imu_dt_s = f32.lit 1 1

  abbrev pub auto_imu_gate_max_s : F32
  auto_imu_gate_max_s = f32.lit 1 0

  -- `Err(NavError::NonFinite(_))`, or `Ok` of a snapshot, if there is one.
  pub data Stepped : Type 0 where
    non_finite : Stepped
    ok : Option (Snapshot F) → Stepped

  abbrev pub accel_of : ImuSample F → Vec3 F
  accel_of s = record { x = s.accel_x; y = s.accel_y; z = s.accel_z }

  abbrev pub gyro_of : ImuSample F → Vec3 F
  gyro_of s = record { x = s.gyro_x; y = s.gyro_y; z = s.gyro_z }

  abbrev finite : Vec3 F → Bool
  finite v = f32.is_finite v.x && (f32.is_finite v.y && f32.is_finite v.z)

  abbrev pub sample_is_finite : ImuSample F → Bool
  sample_is_finite s = finite (accel_of s) && finite (gyro_of s)

  unfoldable pub init_target : DeadReckoner F → ℕ
  init_target r =
      if r.static_init_target == 0
      then to_usize (f64.max (f64.mul (widen r.cfg.static_init_s) (f64.lit 100 0)) (f64.lit 10 0))
      else r.static_init_target

  abbrev add_accel : NedAccel F → Vec3 F → NedAccel F
  add_accel sum a = record {
    n = f64.add sum.n (widen a.x);
    e = f64.add sum.e (widen a.y);
    d = f64.add sum.d (widen a.z);
  }

  -- The average over the samples, whose axes are the body's.
  abbrev average : NedAccel F → ℕ → Vec3 F
  average sum count =
      let n = f64.of_ℕ count in
      record {
        x = narrow (f64.div sum.n n);
        y = narrow (f64.div sum.e n);
        z = narrow (f64.div sum.d n);
      }

  -- The gate for a stream of so many samples, from the first to the last: the one configured, or a
  -- wider one that the stream's period needs.
  unfoldable pub widened_gate : F32 → ℕ → F64 → F64 → F32
  widened_gate gate count first last =
      let span = narrow (f64.sub last first) in
      let intervals = count - 1 in
      let observed_period = f32.div span (f32.of_ℕ intervals) in
      let needed =
        clamp f32 (f32.mul (f32.lit 25 1) observed_period) default_max_imu_dt_s
          auto_imu_gate_max_s in
      if f32.lt (nought f32) span && (ltb 0 intervals && f32.lt gate needed) then needed else gate

  unfoldable pub derive_gate : F32 → ℕ → Option F64 → F64 → F32
  derive_gate gate count none last = gate
  derive_gate gate count (some first) last = widened_gate gate count first last

  -- The end of the static initialisation.
  unfoldable pub finish_init : DeadReckoner F → F64 → DeadReckoner F
  finish_init r mono_secs = record r {
    attitude = init_from_accel F r.attitude (average r.static_init_accel_sum r.static_init_accum);
    initialized = true;
    cfg = record r.cfg {
      max_imu_dt_s =
          derive_gate r.cfg.max_imu_dt_s r.static_init_accum r.static_init_first_mono mono_secs;
    };
  }

  -- One more sample of the initialisation.
  unfoldable pub accumulate : DeadReckoner F → ImuSample F → F64 → DeadReckoner F
  accumulate r sample mono_secs = record r {
    static_init_target = init_target r;
    static_init_first_mono = or_else r.static_init_first_mono (some mono_secs);
    static_init_accel_sum = add_accel r.static_init_accel_sum (accel_of sample);
    static_init_accum = r.static_init_accum + 1;
    last_imu_mono = some mono_secs;
  }

  unfoldable pub static_init : DeadReckoner F → ImuSample F → F64 → DeadReckoner F
  static_init r sample mono_secs =
      let more = accumulate r sample mono_secs in
      if leb more.static_init_target more.static_init_accum
      then finish_init more mono_secs
      else more

  -- The integration step, or why there is none.
  pub data ImuDt : Type 0 where
    no_progress gap : ImuDt
    elapsed : F32 → ImuDt

  unfoldable pub imu_dt : Option F64 → F64 → F32 → ImuDt
  imu_dt none mono_secs gate = ImuDt.elapsed (f32.lit 1 2)
  imu_dt (some prev) mono_secs gate =
      let raw = narrow (f64.sub mono_secs prev) in
      if not (f32.is_finite raw) || f32.le raw (nought f32)
      then ImuDt.no_progress
      else if f32.lt gate raw
      then ImuDt.gap
      else ImuDt.elapsed (f32.max raw (f32.lit 1 6))

  unfoldable pub skip_gap : DeadReckoner F → F64 → DeadReckoner F
  skip_gap r mono_secs =
      let skips = saturating_inc u32_max r.consecutive_imu_skips in
      record r {
        consecutive_imu_skips = skips;
        imu_starvation_warned = r.imu_starvation_warned || leb imu_starvation_skip_threshold skips;
        last_imu_mono = some mono_secs;
      }

  abbrev sub : Vec3 F → Vec3 F → Vec3 F
  sub a b = record { x = f32.sub a.x b.x; y = f32.sub a.y b.y; z = f32.sub a.z b.z }

  abbrev norm : Vec3 F → F32
  norm v = f32.sqrt (f32.add (f32.add (f32.mul v.x v.x) (f32.mul v.y v.y)) (f32.mul v.z v.z))

  abbrev cross : Vec3 F → Vec3 F → Vec3 F
  cross a b = record {
    x = f32.sub (f32.mul a.y b.z) (f32.mul a.z b.y);
    y = f32.sub (f32.mul a.z b.x) (f32.mul a.x b.z);
    z = f32.sub (f32.mul a.x b.y) (f32.mul a.y b.x);
  }

  unfoldable pub bound_centripetal : Vec3 F → Vec3 F
  bound_centripetal a =
      let mag = norm a in
      let s = f32.div (f32.lit 30 0) mag in
      if not (f32.is_finite mag)
      then record { x = nought f32; y = nought f32; z = nought f32 }
      else if f32.lt (f32.lit 30 0) mag
      then record { x = f32.mul a.x s; y = f32.mul a.y s; z = f32.mul a.z s }
      else a

  -- `recent_gyro_mag`, which rises faster than it falls.
  unfoldable pub gyro_average : F32 → F32 → F32
  gyro_average recent gmag =
      let a = if f32.lt recent gmag then f32.lit 1 1 else f32.lit 1 2 in
      f32.add (f32.mul (f32.sub (f32.lit 1 0) a) recent) (f32.mul a gmag)

  module _ (body_to_ned ned_to_body : Quaternion F → Vec3 F → Vec3 F) where
    -- The bias, the gyro's average and the attitude.
    unfoldable pub track_attitude : DeadReckoner F → ImuSample F → F32 → DeadReckoner F
    track_attitude r sample dt =
        let bias = observe F r.bias (accel_of sample) (gyro_of sample) dt (is_normal r.state) in
        let gyro_corr = sub (gyro_of sample) bias.gyro in
        let v = r.strapdown.vel in
        let v_ned : Vec3 F = record { x = narrow v.n; y = narrow v.e; z = narrow v.d } in
        let v_body = ned_to_body r.attitude.q v_ned in
        record r {
          bias = bias;
          recent_gyro_mag = gyro_average r.recent_gyro_mag (norm gyro_corr);
          attitude =
              update_with_lin_accel F r.attitude (accel_of sample) gyro_corr dt
                (bound_centripetal (cross gyro_corr v_body));
        }

    unfoldable pub lin_accel : DeadReckoner F → ImuSample F → NedAccel F
    lin_accel r sample =
        let a = body_to_ned r.attitude.q (accel_of sample) in
        record { n = widen a.x; e = widen a.y; d = f64.add (widen a.z) (f64.lit 980665 5) }

    unfoldable pub propagate : DeadReckoner F → ImuSample F → F64 → F32 → DeadReckoner F × Stepped
    propagate r sample mono_secs dt =
        let r = track_attitude r sample dt in
        let c = correct_and_update_accel_ned F r.bias (lin_accel r sample) (is_normal r.state) in
        let moved = record r { bias = c.0; strapdown = integrate F r.strapdown c.1 dt } in
        if not (is_initialized F r) then (r, Stepped.ok none) else (
          moved,
          Stepped.ok (
              some (record {
                mono_secs = mono_secs;
                pos = moved.strapdown.pos;
                vel = moved.strapdown.vel;
              })),
        )

    unfoldable pub advance : DeadReckoner F → ImuSample F → F64 → ImuDt → DeadReckoner F × Stepped
    advance r sample mono_secs ImuDt.no_progress =
        (record r { last_imu_mono = some mono_secs }, Stepped.ok none)
    advance r sample mono_secs ImuDt.gap = (skip_gap r mono_secs, Stepped.ok none)
    advance r sample mono_secs (ImuDt.elapsed dt) =
        let streaming = record r {
          last_imu_mono = some mono_secs;
          consecutive_imu_skips = 0;
          imu_starvation_warned = false;
        } in
        propagate streaming sample mono_secs dt

    unfoldable pub step : DeadReckoner F → ImuSample F → DeadReckoner F × Stepped
    step r sample =
        let mono_secs = secs sample.mono_ns in
        let gate = r.cfg.max_imu_dt_s in
        if not (sample_is_finite sample)
        then (r, Stepped.non_finite)
        else if not r.initialized
        then (static_init r sample mono_secs, Stepped.ok none)
        else advance r sample mono_secs (imu_dt r.last_imu_mono mono_secs gate)
