-- ===== src/Fusion/Config.antt =====
-- src/fusion.rs: `FusionConfig::validate`. An `Err(String)` is the check that made it.
use flyingsquirrel.Base.{◌≡◌, Bool, true, false, not, ◌&&◌, Option, none, some, ◌==◌, arith, ℕ, ◌≤◌}
use flyingsquirrel.Base.Floats.{Floats, Float, Laws, nought}
use flyingsquirrel.Detect.Config.{DetectConfig}
use flyingsquirrel.Nav.Config.{NavConfig}

pub data ConfigError : Type 0 where
  residual_window max_imu_rate max_jump max_velocity_mismatch jump_persist : ConfigError
  cusum cusum_order mag_cusum mag_cusum_order dwell re_anchor vertical_rate dwell_pause :
      ConfigError
  madgwick blend_tau bias_ema static_init max_home max_home_cap : ConfigError

-- `return Err(e)` if the test fails, or go on.
abbrev pub ensure : Bool → ConfigError → Option ConfigError → Option ConfigError
ensure true e rest = rest
ensure false e rest = some e

module _ (F : Floats) where
  open F use {F32, F64, f32, f64}

  pub record FusionConfig : Type 0 where
    pub nav : NavConfig F
    pub detect : DetectConfig F
    pub residual_window_s : F64
    pub max_imu_rate_hz : F64

  abbrev pub positive : {A : Type 0} → Float A → A → Bool
  positive f x = f.lt (nought f) x

  -- `x > 0.0 && x.is_finite()`.
  abbrev pub sound : {A : Type 0} → Float A → A → Bool
  sound f x = f.lt (nought f) x && f.is_finite x

  unfoldable pub validate_nav : NavConfig F → Option ConfigError
  validate_nav n = ensure (sound f32 n.madgwick_beta) madgwick (
      ensure (sound f32 n.blend_tau_s) blend_tau (
        ensure (positive f32 n.bias_ema_alpha && f32.le n.bias_ema_alpha (f32.lit 1 0)) bias_ema (
          ensure (sound f32 n.static_init_s) static_init (
            ensure (sound f64 n.max_home_distance_m) max_home (
              ensure (not (f64.lt (f64.lit 1000000 0) n.max_home_distance_m)) max_home_cap none)))))

  unfoldable pub validate_detect : DetectConfig F → Option ConfigError → Option ConfigError
  validate_detect d rest = ensure (sound f32 d.max_jump_m) max_jump (
      ensure (sound f32 d.max_velocity_mismatch_mps) max_velocity_mismatch (
        ensure (not (d.jump_persist_fixes == 0)) jump_persist (
          ensure (positive f32 d.cusum_k_m && positive f32 d.cusum_h_m) cusum (
            ensure (not (f32.le d.cusum_h_m d.cusum_k_m)) cusum_order (
              ensure (positive f32 d.mag_cusum_k_m && positive f32 d.mag_cusum_h_m) mag_cusum (
                ensure (not (f32.le d.mag_cusum_h_m d.mag_cusum_k_m)) mag_cusum_order (
                  ensure
                    (positive f32 d.suspicious_to_spoofed_dwell_s
                      && positive f32 d.normal_clear_dwell_s)
                    dwell
                    (ensure (sound f32 d.re_anchor_max_distance_m) re_anchor (
                      ensure (sound f32 d.max_vertical_rate_mps) vertical_rate
                        (ensure (sound f32 d.max_dwell_pause_s) dwell_pause rest))))))))))

  -- `none` is `Ok(())`.
  unfoldable pub validate : FusionConfig → Option ConfigError
  validate c = ensure (sound f64 c.residual_window_s) residual_window (
      ensure (sound f64 c.max_imu_rate_hz) max_imu_rate
        (validate_detect c.detect (validate_nav c.nav)))

  abbrev Positive : {A : Type 0} → Float A → A → Type 0
  Positive f x = f.lt (nought f) x ≡ true

  abbrev Sound : {A : Type 0} → Float A → A → Type 0
  Sound f x = Positive f x × (f.is_finite x ≡ true)

  -- What an accepted configuration guarantees.
  pub record IsValidated (c : FusionConfig) : Type 0 where
    pub window : Sound f64 c.residual_window_s
    pub rate : Sound f64 c.max_imu_rate_hz
    pub jump : Sound f32 c.detect.max_jump_m
    pub mismatch : Sound f32 c.detect.max_velocity_mismatch_mps
    pub persist : 1 ≤ c.detect.jump_persist_fixes
    pub axis :
        Positive f32 c.detect.cusum_k_m × (f32.lt c.detect.cusum_k_m c.detect.cusum_h_m ≡ true)
    pub mag :
        Positive f32 c.detect.mag_cusum_k_m
        × (f32.lt c.detect.mag_cusum_k_m c.detect.mag_cusum_h_m ≡ true)
    pub dwells :
        Positive f32 c.detect.suspicious_to_spoofed_dwell_s
        × Positive f32 c.detect.normal_clear_dwell_s
    pub re_anchor : Sound f32 c.detect.re_anchor_max_distance_m
    pub vertical : Sound f32 c.detect.max_vertical_rate_mps
    pub pause : Sound f32 c.detect.max_dwell_pause_s
    pub home : Sound f64 c.nav.max_home_distance_m
    pub home_cap : f64.lt (f64.lit 1000000 0) c.nav.max_home_distance_m ≡ false
    pub beta : Sound f32 c.nav.madgwick_beta
    pub blend : Sound f32 c.nav.blend_tau_s
    pub bias :
        Positive f32 c.nav.bias_ema_alpha × (f32.le c.nav.bias_ema_alpha (f32.lit 1 0) ≡ true)
    pub static_init : Sound f32 c.nav.static_init_s

  ordered :
      Laws F
      → (k h : F32) → Positive f32 k
      → Positive f32 h
      → f32.le h k ≡ false
      → Positive f32 k × (f32.lt k h ≡ true)
  ordered laws k h a b c = (
    a,
    laws.single.lt_of_not_le k h (laws.single.refl_of_lt (nought f32) k a).1
        (laws.single.refl_of_lt (nought f32) h b).1 c,
  )

  -- An accepted configuration meets all of these. Positive and finite: the residual window, the IMU rate,
  -- the jump and velocity-mismatch thresholds, the re-anchor distance, the vertical rate, the budget of the
  -- dwell pause, the filter gain, the blending time, the static-init time and the home distance, which is also
  -- at most 1000 km. Positive, but perhaps infinite: the two dwells, and the thresholds of the axis and
  -- magnitude CUSUMs, each above its reference value, which is positive. The bias gain is positive and at
  -- most one, and the persistence gate at least one. The other fields are not promised anything.
  pub validate_sound : Laws F → (c : FusionConfig) → validate c ≡ none → IsValidated c
  unfolding validate validate_detect validate_nav
  validate_sound laws c e = record {
    window = ground arith;
    rate = ground arith;
    jump = ground arith;
    mismatch = ground arith;
    persist = ground arith;
    axis =
        ordered laws c.detect.cusum_k_m c.detect.cusum_h_m (ground arith) (ground arith)
          (ground arith);
    mag =
        ordered laws c.detect.mag_cusum_k_m c.detect.mag_cusum_h_m (ground arith) (ground arith)
          (ground arith);
    dwells = ground arith;
    re_anchor = ground arith;
    vertical = ground arith;
    pause = ground arith;
    home = ground arith;
    home_cap = ground arith;
    beta = ground arith;
    blend = ground arith;
    bias = ground arith;
    static_init = ground arith;
  }

  -- No field of the velocity-aiding lane, of the dropout pause's threshold or of the quality test is
  -- looked at: whatever they are, NaN and zero included, the verdict is the same.
  pub validate_blind :
      (c : FusionConfig) (k h freeze hdop : F32) (sats : ℕ)
      → validate (record c {
        detect = record c.detect {
          vel_aiding_cusum_k_mps = k;
          vel_aiding_cusum_h = h;
          gps_dropout_freeze_s = freeze;
          hdop_multipath_threshold = hdop;
          sats_low_threshold = sats;
        };
      })
        ≡ validate c
  unfolding validate validate_detect validate_nav
  validate_blind c k h freeze hdop sats = ground arith
