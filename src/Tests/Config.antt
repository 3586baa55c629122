-- ===== src/Tests/Config.antt =====
-- Runs of `FusionConfig::validate` of src/fusion.rs on the default configuration.
use flyingsquirrel.Base.{◌≡◌, refl}
use flyingsquirrel.Base.Fixed.{nan, fixed, fixed_float, fixed-Laws}
use flyingsquirrel.Detect.Config.{default_config}
use flyingsquirrel.Nav.Config
use flyingsquirrel.Fusion.Config.{
  FusionConfig, validate, validate_detect, validate_nav, IsValidated, validate_sound,
  validate_blind,
}

abbrev usual : FusionConfig fixed
usual = record {
  nav = Config.default_config fixed;
  detect = default_config fixed;
  residual_window_s = fixed_float.lit 5 0;
  max_imu_rate_hz = fixed_float.lit 200 0;
}

validate_sound_example : IsValidated fixed usual
unfolding validate validate_detect validate_nav default_config Config.default_config
validate_sound_example = validate_sound fixed fixed-Laws usual refl

validate_blind_example :
    validate fixed (record usual {
      detect = record (usual.detect) {
        vel_aiding_cusum_k_mps = nan;
        vel_aiding_cusum_h = nan;
        gps_dropout_freeze_s = nan;
        hdop_multipath_threshold = nan;
        sats_low_threshold = 0;
      };
    })
    ≡ validate fixed usual
validate_blind_example = validate_blind fixed usual nan nan nan nan 0
