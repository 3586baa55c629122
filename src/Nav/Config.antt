-- ===== src/Nav/Config.antt =====
-- src/nav/mod.rs: `NavConfig`.
use flyingsquirrel.Base.{Bool, true, Option, none}
use flyingsquirrel.Base.Floats.{Floats}

module _ (F : Floats) where
  open F use {F32, F64, f32, f64}

  pub record NavConfig : Type 0 where
    pub madgwick_beta : F32
    pub imu_bias_window_s : F32
    pub blend_tau_s : F32
    pub dead_reckon_freeze_on_suspicious : Bool
    pub bias_ema_alpha : F32
    pub static_init_s : F32
    pub yaw_from_gps_speed_min_mps : F32
    pub expected_home : Option (F64 × F64)
    pub max_home_distance_m : F64
    pub max_imu_dt_s : F32

  -- `NavConfig::default`.
  unfoldable pub default_config : NavConfig
  default_config = record {
    madgwick_beta = f32.lit 5 2;
    imu_bias_window_s = f32.lit 5 0;
    blend_tau_s = f32.lit 3 0;
    dead_reckon_freeze_on_suspicious = true;
    bias_ema_alpha = f32.lit 1 2;
    static_init_s = f32.lit 1 0;
    yaw_from_gps_speed_min_mps = f32.lit 2 0;
    expected_home = none;
    max_home_distance_m = f64.lit 1000 0;
    max_imu_dt_s = f32.lit 1 1;
  }
