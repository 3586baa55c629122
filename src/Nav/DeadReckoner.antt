-- ===== src/Nav/DeadReckoner.antt =====
-- src/nav/mod.rs: the state of `DeadReckoner`, and what GPS does to it. `Imu` has `step`. Times are
-- nanoseconds since the reckoner's boot instant. Warnings are left out.
pub mod Imu
pub mod Anchor
pub mod Isolation
pub mod Warmup
pub mod Gate
pub mod Reckons
use flyingsquirrel.Base.{
  ℕ, Bool, true, false, not, ◌&&◌, ◌||◌, Option, none, some, if◌then◌else◌, is_some,
}
use flyingsquirrel.Base.Floats.{Floats, nought, clamp}
use flyingsquirrel.Types.{NavStateKind, is_normal, GpsFix, NedPos, NedVel, horizontal_norm}
use flyingsquirrel.Nav.Config.{NavConfig}
use flyingsquirrel.Nav.Frame.{lla_to_ned, gps_velocity}
use flyingsquirrel.Nav.Attitude.{Madgwick, Vec3, new as madgwick_new, seed_yaw_deg}
use flyingsquirrel.Nav.Strapdown.{
  Strapdown, BiasEstimator, NedAccel, new as strapdown_new, origin_pos, set_pos, set_vel, reset,
  bias_new,
}

module _ (F : Floats) where
  open F use {F32, F64, f32, f64, narrow, widen, secs}

  pub record DeadReckoner : Type 0 where
    pub cfg : NavConfig F
    pub attitude : Madgwick F
    pub strapdown : Strapdown F
    pub bias : BiasEstimator F
    pub origin : Option (F64 × F64 × F64)
    pub last_imu_mono : Option F64
    pub initialized : Bool
    pub static_init_accum : ℕ
    pub static_init_target : ℕ
    pub static_init_accel_sum : NedAccel F
    pub static_init_first_mono : Option F64
    pub state : NavStateKind
    pub yaw_seeded_from_gps : Bool
    pub last_gps_mono : Option F64
    pub anchor_locked : Bool
    pub consecutive_imu_skips : ℕ
    pub imu_starvation_warned : Bool
    pub aiding_n : F64
    pub aiding_e : F64
    pub recent_gyro_mag : F32

  unfoldable pub new : NavConfig F → DeadReckoner
  new cfg = record {
    cfg = cfg;
    attitude = madgwick_new F cfg.madgwick_beta;
    strapdown = strapdown_new F;
    bias = bias_new F cfg.bias_ema_alpha cfg.imu_bias_window_s;
    origin = none;
    last_imu_mono = none;
    initialized = false;
    static_init_accum = 0;
    static_init_target = 0;
    static_init_accel_sum = record { n = nought f64; e = nought f64; d = nought f64 };
    static_init_first_mono = none;
    state = NavStateKind.normal;
    yaw_seeded_from_gps = false;
    last_gps_mono = none;
    anchor_locked = false;
    consecutive_imu_skips = 0;
    imu_starvation_warned = false;
    aiding_n = nought f64;
    aiding_e = nought f64;
    recent_gyro_mag = nought f32;
  }

  unfoldable pub set_state : DeadReckoner → NavStateKind → DeadReckoner
  set_state r state = record r { state = state }

  -- The interval that the blend counts with.
  unfoldable pub blend_interval : Option F64 → F64 → F32
  blend_interval none now = f32.lit 1 0
  blend_interval (some prev) now =
      let d = narrow (f64.sub now prev) in
      if f32.is_finite d && f32.lt (nought f32) d then f32.min d (f32.lit 5 0) else f32.lit 1 0

  unfoldable pub seed_yaw : DeadReckoner → Option F64 → Option F64 → DeadReckoner
  seed_yaw r (some course) (some speed) =
      if not r.yaw_seeded_from_gps && f32.le r.cfg.yaw_from_gps_speed_min_mps (narrow speed)
      then record r {
        attitude = seed_yaw_deg F r.attitude (narrow course);
        yaw_seeded_from_gps = true;
      }
      else r
  seed_yaw r _ _ = r

  abbrev set_vel_if : Strapdown F → Option (NedVel F) → Strapdown F
  set_vel_if s none = s
  set_vel_if s (some v) = set_vel F s v

  abbrev fix_origin : GpsFix F → Option (F64 × F64 × F64)
  fix_origin fix = some (fix.lat_deg, fix.lon_deg, fix.alt_m)

  -- A fix before the anchor is locked.
  unfoldable pub anchor : DeadReckoner → GpsFix F → DeadReckoner
  anchor r fix = record r {
    origin = fix_origin fix;
    strapdown = set_vel_if (reset F r.strapdown) (gps_velocity F fix.speed_mps fix.course_deg);
    aiding_n = nought f64;
    aiding_e = nought f64;
    anchor_locked = if r.initialized then true else r.anchor_locked;
  }

  -- A fix from then on, which pulls the velocity towards the one it reports.
  unfoldable pub blend : DeadReckoner → F32 → Option (NedVel F) → DeadReckoner
  blend r dt none = r
  blend r dt (some vg) =
      let tau = f32.max r.cfg.blend_tau_s (f32.lit 5 2) in
      let alpha = widen (clamp f32 (f32.div dt tau) (nought f32) (f32.lit 1 0)) in
      let v = r.strapdown.vel in
      let cn = f64.mul alpha (f64.sub vg.n v.n) in
      let ce = f64.mul alpha (f64.sub vg.e v.e) in
      record r {
        aiding_n = f64.add r.aiding_n cn;
        aiding_e = f64.add r.aiding_e ce;
        strapdown = set_vel F r.strapdown (record {
          n = f64.add v.n cn;
          e = f64.add v.e ce;
          d = f64.add v.d (f64.mul alpha (f64.sub vg.d v.d));
        });
      }

  abbrev pub do_blend : DeadReckoner → Bool
  do_blend r = is_normal r.state || not r.cfg.dead_reckon_freeze_on_suspicious

  unfoldable pub on_gps_fix : DeadReckoner → GpsFix F → DeadReckoner
  on_gps_fix r fix =
      let now_mono = secs fix.mono_ns in
      let dt_blend = blend_interval r.last_gps_mono now_mono in
      let timed = record r { last_gps_mono = some now_mono } in
      let seeded = seed_yaw timed fix.course_deg fix.speed_mps in
      if not seeded.anchor_locked
      then anchor seeded fix
      else if do_blend seeded
      then blend seeded dt_blend (gps_velocity F fix.speed_mps fix.course_deg)
      else seeded

  unfoldable pub re_anchor_after_clearing : DeadReckoner → GpsFix F → DeadReckoner
  re_anchor_after_clearing r fix = record r {
    origin = fix_origin fix;
    strapdown = set_pos F r.strapdown (origin_pos F);
    aiding_n = nought f64;
    aiding_e = nought f64;
  }

  unfoldable pub aiding_vel : DeadReckoner → NedVel F
  aiding_vel r = record { n = r.aiding_n; e = r.aiding_e; d = nought f64 }

  unfoldable pub is_maneuvering : DeadReckoner → Bool
  is_maneuvering r = f32.lt (f32.lit 4 2) r.recent_gyro_mag

  unfoldable pub ned_from : Option (F64 × F64 × F64) → GpsFix F → Option (NedPos F)
  ned_from none fix = none
  ned_from (some (lat0, lon0, alt0)) fix =
      some (lla_to_ned F fix.lat_deg fix.lon_deg fix.alt_m lat0 lon0)

  unfoldable pub gps_in_ned : DeadReckoner → GpsFix F → Option (NedPos F)
  gps_in_ned r fix = ned_from r.origin fix

  unfoldable pub is_initialized : DeadReckoner → Bool
  is_initialized r = r.initialized && is_some r.origin

  -- `some distance` is `Err(distance)`.
  unfoldable pub home_check : Option (F64 × F64) → Bool → F64 → GpsFix F → Option F64
  home_check none locked max_m fix = none
  home_check (some (home_lat, home_lon)) locked max_m fix =
      let ned = lla_to_ned F fix.lat_deg fix.lon_deg (nought f64) home_lat home_lon in
      let d = horizontal_norm F ned.n ned.e in
      if locked then none else if f64.le d max_m then none else some d

  unfoldable pub is_first_fix_plausible : DeadReckoner → GpsFix F → Option F64
  is_first_fix_plausible r fix =
      home_check r.cfg.expected_home r.anchor_locked r.cfg.max_home_distance_m fix
