-- ===== src/Detect/Drift.antt =====
-- src/detect/drift.rs: two-sided CUSUMs on the north and east residual, one-sided CUSUMs on its
-- magnitude and on the free-inertial velocity residual, each above a learned noise floor.
pub mod Bounds
pub mod Lanes
use flyingsquirrel.Base.{ℕ, ◌+◌, Bool, not, ◌&&◌, Option, none, some, ltb, if◌then◌else◌}
use flyingsquirrel.Base.Floats.{Floats, nought}
use flyingsquirrel.Detect.Config.{DetectConfig, hdop_bad, sats_bad}
use flyingsquirrel.Detect.Residual.{Residual}

pub data DriftReason : Type 0 where
  north_positive north_negative east_positive east_negative magnitude velocity_aiding : DriftReason

abbrev pub warmup_fixes : ℕ
warmup_fixes = 20

module _ (F : Floats) where
  open F use {F32, f32, narrow}

  pub record CusumState : Type 0 where
    pub s_pos_n : F32
    pub s_neg_n : F32
    pub s_pos_e : F32
    pub s_neg_e : F32
    pub s_mag : F32
    pub s_vel_aiding : F32

  abbrev pub cusum_default : CusumState
  cusum_default = record {
    s_pos_n = nought f32;
    s_neg_n = nought f32;
    s_pos_e = nought f32;
    s_neg_e = nought f32;
    s_mag = nought f32;
    s_vel_aiding = nought f32;
  }

  pub record DriftDetector : Type 0 where
    pub cfg : DetectConfig F
    pub state : CusumState
    pub mag_noise_ewma : F32
    pub axis_noise_n : F32
    pub axis_noise_e : F32
    pub vel_aiding_noise : F32
    pub warmup : ℕ

  unfoldable pub new : DetectConfig F → DriftDetector
  new cfg = record {
    cfg = cfg;
    state = cusum_default;
    mag_noise_ewma = nought f32;
    axis_noise_n = nought f32;
    axis_noise_e = nought f32;
    vel_aiding_noise = nought f32;
    warmup = 0;
  }

  unfoldable pub reset : DriftDetector → DriftDetector
  reset m = record m { state = cusum_default }

  -- The `as f32` values that one evaluation reads off the residual.
  pub record Sample : Type 0 where
    pub rn : F32
    pub re : F32
    pub rmag : F32
    pub rvel_free : F32
    pub aided : Bool

  -- `aided` is `r.dvel_known && !r.maneuvering`.
  unfoldable pub sample_of : Residual F → Sample
  sample_of r = record {
    rn = narrow r.dpos.n;
    re = narrow r.dpos.e;
    rmag = narrow r.mag_pos;
    rvel_free = narrow r.mag_vel_free;
    aided = r.dvel_known && not r.maneuvering;
  }

  unfoldable pub sample_finite : Sample → Bool
  sample_finite x =
      f32.is_finite x.rn && f32.is_finite x.re && f32.is_finite x.rmag && f32.is_finite x.rvel_free

  -- A running mean's step with weight 1/w, and an EWMA's step with weight alpha.
  abbrev pub mean_step : F32 → F32 → F32 → F32
  mean_step w old x = f32.add old (f32.div (f32.sub x old) w)

  abbrev pub ewma_step : F32 → F32 → F32 → F32
  ewma_step alpha old x = f32.add (f32.mul (f32.sub (f32.lit 1 0) alpha) old) (f32.mul alpha x)

  -- A fix that comes before the detector is armed: the floors learn, the sums stay at 0.
  unfoldable pub learn : DriftDetector → Sample → DriftDetector
  learn m x =
      let w = f32.of_ℕ (m.warmup + 1) in
      record m {
        warmup = m.warmup + 1;
        axis_noise_n = mean_step w m.axis_noise_n (f32.abs x.rn);
        axis_noise_e = mean_step w m.axis_noise_e (f32.abs x.re);
        mag_noise_ewma = mean_step w m.mag_noise_ewma x.rmag;
        vel_aiding_noise =
            if x.aided && f32.lt x.rvel_free m.cfg.vel_aiding_cusum_k_mps
            then mean_step w m.vel_aiding_noise x.rvel_free
            else m.vel_aiding_noise;
        state = cusum_default;
      }

  -- The floors of the lanes that are quiescent follow the noise.
  unfoldable pub update_floors : DriftDetector → Sample → DriftDetector
  update_floors m x =
      let st = m.state in
      record m {
        axis_noise_n =
            if f32.eq st.s_pos_n (nought f32) && f32.eq st.s_neg_n (nought f32)
            then ewma_step (f32.lit 5 2) m.axis_noise_n (f32.abs x.rn)
            else m.axis_noise_n;
        axis_noise_e =
            if f32.eq st.s_pos_e (nought f32) && f32.eq st.s_neg_e (nought f32)
            then ewma_step (f32.lit 5 2) m.axis_noise_e (f32.abs x.re)
            else m.axis_noise_e;
        mag_noise_ewma =
            if f32.le st.s_mag (nought f32)
            then ewma_step (f32.lit 5 2) m.mag_noise_ewma x.rmag
            else m.mag_noise_ewma;
        vel_aiding_noise =
            if x.aided
              && f32.le st.s_vel_aiding (nought f32)
              && f32.lt x.rvel_free m.cfg.vel_aiding_cusum_k_mps
            then ewma_step (f32.lit 8 3) m.vel_aiding_noise x.rvel_free
            else m.vel_aiding_noise;
      }

  -- `(sum + x - k).max(0.0)` and `(sum - x - k).max(0.0)`.
  abbrev pub cusum_up : F32 → F32 → F32 → F32
  cusum_up sum x k = f32.max (f32.sub (f32.add sum x) k) (nought f32)

  abbrev pub cusum_down : F32 → F32 → F32 → F32
  cusum_down sum x k = f32.max (f32.sub (f32.sub sum x) k) (nought f32)

  -- The reference value of a lane: its base, or a multiple of its floor where that is more.
  abbrev pub eff_k : F32 → F32 → F32 → F32
  eff_k base floor factor = f32.max base (f32.mul floor factor)

  unfoldable pub accumulate : DriftDetector → Sample → DriftDetector
  accumulate m x =
      let st = m.state in
      let k_n = eff_k m.cfg.cusum_k_m m.axis_noise_n (f32.lit 25 1) in
      let k_e = eff_k m.cfg.cusum_k_m m.axis_noise_e (f32.lit 25 1) in
      let k_mag = eff_k m.cfg.mag_cusum_k_m m.mag_noise_ewma (f32.lit 15 1) in
      let k_vel = eff_k m.cfg.vel_aiding_cusum_k_mps m.vel_aiding_noise (f32.lit 2 0) in
      record m {
        state = record {
          s_pos_n = cusum_up st.s_pos_n x.rn k_n;
          s_neg_n = cusum_down st.s_neg_n x.rn k_n;
          s_pos_e = cusum_up st.s_pos_e x.re k_e;
          s_neg_e = cusum_down st.s_neg_e x.re k_e;
          s_mag = cusum_up st.s_mag x.rmag k_mag;
          s_vel_aiding =
              if x.aided then cusum_up st.s_vel_aiding x.rvel_free k_vel else st.s_vel_aiding;
        };
      }

  -- The firing thresholds for the axes and for the magnitude.
  unfoldable pub thresholds : DetectConfig F → Option F32 → Option ℕ → F32 × F32
  thresholds cfg hdop sats =
      if hdop_bad F cfg hdop && sats_bad F cfg sats
      then (f32.mul cfg.cusum_h_m (f32.lit 15 1), f32.mul cfg.mag_cusum_h_m (f32.lit 15 1))
      else (cfg.cusum_h_m, cfg.mag_cusum_h_m)

  -- The first lane at or over its threshold.
  unfoldable pub reason : CusumState → F32 → F32 → F32 → Option DriftReason
  reason st h h_mag h_vel =
      if f32.le h st.s_pos_n
      then some north_positive
      else if f32.le h st.s_neg_n
      then some north_negative
      else if f32.le h st.s_pos_e
      then some east_positive
      else if f32.le h st.s_neg_e
      then some east_negative
      else if f32.le h_mag st.s_mag
      then some magnitude
      else if f32.le h_vel st.s_vel_aiding
      then some velocity_aiding
      else none

  unfoldable pub armed_step : DriftDetector → Sample → DriftDetector
  armed_step m x = accumulate (update_floors m x) x

  unfoldable pub evaluate :
      DriftDetector → Residual F → Option F32 → Option ℕ → DriftDetector × Option DriftReason
  evaluate m r hdop sats =
      let x = sample_of r in
      let (h, h_mag) = thresholds m.cfg hdop sats in
      let armed = armed_step m x in
      if not (sample_finite x)
      then (m, none)
      else if ltb m.warmup warmup_fixes
      then (learn m x, none)
      else (armed, reason armed.state h h_mag m.cfg.vel_aiding_cusum_h)
