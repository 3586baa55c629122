-- ===== src/Launch/Printed.antt =====
-- src/bin/flyingsquirrel.rs: `cli_to_app_config`, what `--print-config` prints, and `Display` of
-- `VehicleProfile` in src/mav/monitor.rs. Std's printer of a `SocketAddr` is a parameter. A path is the text
-- that stands for it.
use flyingsquirrel.Base.{Option, none, some}
use flyingsquirrel.Base.Floats.{Floats}
use flyingsquirrel.Mav.Modes.{VehicleProfile, ardu_copter, px4}
use flyingsquirrel.Launch.Words.{
  Text, word_synth, word_mav, word_serial, word_i2c, word_console, word_clean, word_sudden_jump,
  word_gradual_drift, word_ardu_copter, word_px4,
}
use flyingsquirrel.Launch.Config.{AppConfig}
use flyingsquirrel.Launch.Options.{
  GpsSourceKind, ImuSourceKind, ControllerKind, Scenario, SocketAddr,
}
use flyingsquirrel.Launch.Cli.{Cli}

-- The names of the constructors in lower case, with the dashes that the code puts back.
unfoldable pub print_gps_source : GpsSourceKind → Text
print_gps_source GpsSourceKind.synth = word_synth
print_gps_source GpsSourceKind.mav = word_mav
print_gps_source GpsSourceKind.serial = word_serial

unfoldable pub print_imu_source : ImuSourceKind → Text
print_imu_source ImuSourceKind.synth = word_synth
print_imu_source ImuSourceKind.mav = word_mav
print_imu_source ImuSourceKind.i2c = word_i2c

unfoldable pub print_controller : ControllerKind → Text
print_controller ControllerKind.console = word_console
print_controller ControllerKind.mav = word_mav

unfoldable pub print_scenario : Scenario → Text
print_scenario Scenario.clean = word_clean
print_scenario Scenario.sudden_jump = word_sudden_jump
print_scenario Scenario.gradual_drift = word_gradual_drift

unfoldable pub print_vehicle : VehicleProfile → Text
print_vehicle ardu_copter = word_ardu_copter
print_vehicle px4 = word_px4

unfoldable pub print_profile : Option VehicleProfile → Option Text
print_profile none = none
print_profile (some v) = some (print_vehicle v)

module _ (F : Floats) (print_addr : SocketAddr → Text) where
  unfoldable pub cli_to_app_config : Cli F → AppConfig F
  cli_to_app_config cli = record {
    sources = record {
      gps_source = print_gps_source cli.gps_source;
      imu_source = print_imu_source cli.imu_source;
      controller = print_controller cli.controller;
    };
    scenario = record { scenario = print_scenario cli.scenario; seed = cli.seed };
    serial = record { gps_port = cli.gps_port; gps_baud = cli.gps_baud };
    i2c = record {
      imu_bus = cli.imu_bus;
      imu_addr = cli.imu_addr;
      imu_rate = cli.imu_rate;
      axis_map = cli.imu_axis_map;
    };
    mav = record {
      bind_to = print_addr cli.mav_bind;
      target = print_addr cli.mav_target;
      target_system = cli.mav_target_system;
      target_component = cli.mav_target_component;
      no_source_filter = cli.mav_no_source_filter;
      no_sysid_filter = cli.mav_no_sysid_filter;
      allow_any_source_port = cli.mav_allow_any_source_port;
      vehicle = print_profile cli.vehicle;
    };
    boot_anchor = record {
      expected_home = cli.expected_home;
      max_home_distance_m = some cli.max_home_distance_m;
      allow_no_boot_anchor_check = cli.allow_no_boot_anchor_check;
    };
    forensic = record { dir = cli.forensic_dir; window_s = some cli.forensic_window_s };
    process = record {
      duration = some cli.duration;
      json_log = cli.json_log;
      log_level = cli.log_level;
      allow_synth_to_mav = cli.allow_synth_to_mav;
    };
  }
