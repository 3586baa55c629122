-- ===== src/Detect/Config.antt =====
-- src/detect/mod.rs (`DetectConfig`) and the quality test that both detectors make on a fix.
use flyingsquirrel.Base.{ℕ, Bool, false, Option, none, some, ltb}
use flyingsquirrel.Base.Floats.{Floats}

module _ (F : Floats) where
  open F use {F32, f32}

  pub record DetectConfig : Type 0 where
    pub max_jump_m : F32
    pub max_velocity_mismatch_mps : F32
    pub jump_persist_fixes : ℕ
    pub cusum_k_m : F32
    pub cusum_h_m : F32
    pub mag_cusum_k_m : F32
    pub mag_cusum_h_m : F32
    pub suspicious_to_spoofed_dwell_s : F32
    pub normal_clear_dwell_s : F32
    pub hdop_multipath_threshold : F32
    pub sats_low_threshold : ℕ
    pub gps_dropout_freeze_s : F32
    pub re_anchor_max_distance_m : F32
    pub max_vertical_rate_mps : F32
    pub max_dwell_pause_s : F32
    pub vel_aiding_cusum_k_mps : F32
    pub vel_aiding_cusum_h : F32

  -- `DetectConfig::default`.
  unfoldable pub default_config : DetectConfig
  default_config = record {
    max_jump_m = f32.lit 50 0;
    max_velocity_mismatch_mps = f32.lit 15 0;
    jump_persist_fixes = 2;
    cusum_k_m = f32.lit 1 0;
    cusum_h_m = f32.lit 25 0;
    mag_cusum_k_m = f32.lit 1 0;
    mag_cusum_h_m = f32.lit 30 0;
    suspicious_to_spoofed_dwell_s = f32.lit 10 0;
    normal_clear_dwell_s = f32.lit 5 0;
    hdop_multipath_threshold = f32.lit 4 0;
    sats_low_threshold = 6;
    gps_dropout_freeze_s = f32.lit 25 1;
    re_anchor_max_distance_m = f32.lit 500 0;
    max_vertical_rate_mps = f32.lit 30 0;
    max_dwell_pause_s = f32.lit 20 0;
    vel_aiding_cusum_k_mps = f32.lit 55 2;
    vel_aiding_cusum_h = f32.lit 8 0;
  }

  -- `matches!(hdop, Some(h) if h > threshold)`.
  abbrev pub hdop_bad : DetectConfig → Option F32 → Bool
  hdop_bad cfg none = false
  hdop_bad cfg (some h) = f32.lt cfg.hdop_multipath_threshold h

  -- `matches!(sats, Some(s) if s < threshold)`.
  abbrev pub sats_bad : DetectConfig → Option ℕ → Bool
  sats_bad cfg none = false
  sats_bad cfg (some n) = ltb n cfg.sats_low_threshold
