-- ===== src/Tests/Launch.antt =====
-- A start of src/bin/flyingsquirrel.rs from a file that names MAVLink sources and a vehicle and sets a duration,
-- with --allow-no-boot-anchor-check on the command line.
use flyingsquirrel.Base.{◌≡◌, refl, Bool, true, false, [], ◌∷◌, Option, none, some}
use flyingsquirrel.Base.Int.{pos}
use flyingsquirrel.Base.Fixed.{fin, fixed}
use flyingsquirrel.Launch.Words.{Text, word_mav, word_px4, word_axes, word_info}
use flyingsquirrel.Launch.Config.{
  AppConfig, default_app_config, load, offends, reject_toml_safety_bypasses,
}
use flyingsquirrel.Launch.Options.{
  Arg, SocketAddr, GpsSourceKind, ImuSourceKind, ControllerKind, Scenario, parse_gps_source,
  parse_imu_source, parse_controller, parse_scenario, parse_vehicle,
}
use flyingsquirrel.Launch.Cli.{Cli, merge_vehicle, merge_parsed, merge_plain, merge_config_into_cli}
use flyingsquirrel.Launch.Startup.{Launch, Outcome, run, guard_start, launch}
use flyingsquirrel.Launch.Printed.{cli_to_app_config}
use flyingsquirrel.Launch.Replay.{replay}
use flyingsquirrel.Launch.Sanctions.{Sanctioned, run-started}

abbrev read_to_string : Text → Option Text
read_to_string path = some path

abbrev flight : AppConfig fixed
flight =
    let d = default_app_config fixed in
    record d {
      sources = record { gps_source = word_mav; imu_source = word_mav; controller = word_mav };
      mav = record (d.mav) { vehicle = some word_px4 };
      process = record (d.process) { duration = some 7200 };
    }

abbrev from_str : Text → Option (AppConfig fixed)
from_str [] = none
from_str (_ ∷ _) = some flight

abbrev parse_addr : Text → Option SocketAddr
parse_addr [] = none
parse_addr (c ∷ _) = some (c, 14550)

abbrev explicit : Arg → Bool
explicit Arg.allow_no_boot_anchor_check = true
explicit _ = false

abbrev command_line : Cli fixed
command_line = record {
  config = some word_info;
  print_config = false;
  gps_source = GpsSourceKind.synth;
  imu_source = ImuSourceKind.synth;
  controller = ControllerKind.console;
  scenario = Scenario.gradual_drift;
  seed = 7;
  gps_port = [];
  gps_baud = 9600;
  imu_bus = [];
  imu_addr = 104;
  imu_rate = fin (pos 100000);
  imu_axis_map = word_axes;
  mav_bind = (127, 14551);
  mav_target = (127, 14550);
  mav_target_system = 1;
  mav_target_component = 1;
  mav_no_source_filter = false;
  mav_no_sysid_filter = false;
  mav_allow_any_source_port = false;
  allow_synth_to_mav = false;
  allow_no_boot_anchor_check = true;
  forensic_dir = none;
  forensic_window_s = fin (pos 30000);
  vehicle = none;
  expected_home = none;
  max_home_distance_m = fin (pos 1000000);
  duration = 60;
  json_log = none;
  log_level = word_info;
}

abbrev flown : Launch fixed
flown = elim (run fixed read_to_string from_str parse_addr explicit command_line) [
  | Outcome.started l ↦ l
  | _ ↦ launch fixed command_line
]

run-started_example :
    (file : AppConfig fixed) × (load fixed read_to_string from_str (some word_info) ≡ some file)
    × Sanctioned fixed explicit file flown
unfolding run load offends reject_toml_safety_bypasses default_app_config parse_gps_source
    parse_imu_source parse_controller parse_scenario parse_vehicle merge_vehicle merge_parsed
    merge_plain merge_config_into_cli guard_start launch
run-started_example =
    run-started fixed read_to_string from_str parse_addr explicit command_line flown refl

abbrev print_addr : SocketAddr → Text
print_addr (ip, port) = ip ∷ port ∷ []

abbrev read_addr : Text → Option SocketAddr
read_addr (ip ∷ port ∷ []) = some (ip, port)
read_addr _ = none

-- A serial receiver and an I2C IMU, with the duration that stands where none was chosen.
abbrev shown : Cli fixed
shown = record command_line {
  gps_source = GpsSourceKind.serial;
  imu_source = ImuSourceKind.i2c;
  allow_no_boot_anchor_check = false;
}

abbrev from_shown : Text → Option (AppConfig fixed)
from_shown [] = none
from_shown (_ ∷ _) = some (cli_to_app_config fixed print_addr shown)

replay_example :
    run fixed read_to_string from_shown read_addr (λ _. false) command_line
    ≡ Outcome.started (launch fixed shown)
unfolding cli_to_app_config offends guard_start launch
replay_example =
    replay fixed print_addr read_addr (λ a. refl) read_to_string from_shown word_info word_info
      shown refl refl command_line
      (record { vehicle = refl; expected_home = refl; forensic_dir = refl; json_log = refl }) refl
      refl
