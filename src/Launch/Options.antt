-- ===== src/Launch/Options.antt =====
-- src/bin/flyingsquirrel.rs: the kinds of sources, controllers and scenarios, and the arguments, with the
-- parsers of the words of a file; `FromStr` of `VehicleProfile` in src/mav/monitor.rs. An error is `none`.
use flyingsquirrel.Base.{ℕ, Bool, false, ◌||◌, List, [], ◌∷◌, Option, none, some, if◌then◌else◌}
use flyingsquirrel.Base.Lists.{same_bytes}
use flyingsquirrel.Mav.Modes.{VehicleProfile, ardu_copter, px4}
use flyingsquirrel.Launch.Words.{
  Text, word_synth, word_mav, word_serial, word_i2c, word_console, word_clean, word_sudden_jump,
  word_sudden_jump_alias, word_gradual_drift, word_gradual_drift_alias, word_ardu_copter,
  word_ardu_copter_alias, word_arducopter, word_px4, word_px4_copter, word_px4_fixed_wing,
  word_px4_rover,
}

pub data GpsSourceKind : Type 0 where
  synth mav serial : GpsSourceKind

pub data ImuSourceKind : Type 0 where
  synth mav i2c : ImuSourceKind

pub data ControllerKind : Type 0 where
  console mav : ControllerKind

pub data Scenario : Type 0 where
  clean sudden_jump gradual_drift : Scenario

-- The arguments that `merge_config_into_cli` asks `cli_explicit` about.
pub data Arg : Type 0 where
  gps_source imu_source controller scenario seed gps_port gps_baud : Arg
  imu_bus imu_addr imu_rate imu_axis_map mav_bind mav_target : Arg
  mav_target_system mav_target_component mav_no_source_filter mav_no_sysid_filter : Arg
  mav_allow_any_source_port vehicle expected_home max_home_distance_m : Arg
  allow_no_boot_anchor_check forensic_dir forensic_window_s duration : Arg
  json_log log_level allow_synth_to_mav : Arg

abbrev pub SocketAddr : Type 0
SocketAddr = ℕ × ℕ

unfoldable pub parse_gps_source : Text → Option GpsSourceKind
parse_gps_source s =
    if same_bytes s word_synth
    then some GpsSourceKind.synth
    else if same_bytes s word_mav
    then some GpsSourceKind.mav
    else if same_bytes s word_serial
    then some GpsSourceKind.serial
    else none

unfoldable pub parse_imu_source : Text → Option ImuSourceKind
parse_imu_source s =
    if same_bytes s word_synth
    then some ImuSourceKind.synth
    else if same_bytes s word_mav
    then some ImuSourceKind.mav
    else if same_bytes s word_i2c
    then some ImuSourceKind.i2c
    else none

unfoldable pub parse_controller : Text → Option ControllerKind
parse_controller s =
    if same_bytes s word_console
    then some ControllerKind.console
    else if same_bytes s word_mav
    then some ControllerKind.mav
    else none

unfoldable pub parse_scenario : Text → Option Scenario
parse_scenario s =
    if same_bytes s word_clean
    then some Scenario.clean
    else if same_bytes s word_sudden_jump || same_bytes s word_sudden_jump_alias
    then some Scenario.sudden_jump
    else if same_bytes s word_gradual_drift || same_bytes s word_gradual_drift_alias
    then some Scenario.gradual_drift
    else none

-- Whether a text is one of some words.
abbrev one_of : Text → List Text → Bool
one_of _ [] = false
one_of s (word ∷ more) = let rest = one_of s more in same_bytes s word || rest

unfoldable pub parse_vehicle : Text → Option VehicleProfile
parse_vehicle s =
    if one_of s (word_ardu_copter ∷ word_ardu_copter_alias ∷ word_arducopter ∷ [])
    then some ardu_copter
    else if one_of s (word_px4 ∷ word_px4_copter ∷ word_px4_fixed_wing ∷ word_px4_rover ∷ [])
    then some px4
    else none
