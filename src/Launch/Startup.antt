-- ===== src/Launch/Startup.antt =====
-- src/bin/flyingsquirrel.rs: `run` up to the binding of the MAVLink socket: the configuration, the
-- merge, `--print-config`, and the guards that refuse a start. Logging and the attestation are left out.
use flyingsquirrel.Base.{
  Bool, true, false, not, ◌&&◌, ◌||◌, Option, none, some, is_some, if◌then◌else◌,
}
use flyingsquirrel.Base.Floats.{Floats}
use flyingsquirrel.Mav.Modes.{VehicleProfile}
use flyingsquirrel.Mav.Listener.{MavFilter}
use flyingsquirrel.Launch.Words.{Text}
use flyingsquirrel.Launch.Config.{AppConfig, load}
use flyingsquirrel.Launch.Options.{Arg, SocketAddr, GpsSourceKind, ImuSourceKind, ControllerKind}
use flyingsquirrel.Launch.Cli.{Cli, merge_config_into_cli}

abbrev pub gps_is_synth : GpsSourceKind → Bool
gps_is_synth GpsSourceKind.synth = true
gps_is_synth _ = false

abbrev pub gps_is_mav : GpsSourceKind → Bool
gps_is_mav GpsSourceKind.mav = true
gps_is_mav _ = false

abbrev pub imu_is_synth : ImuSourceKind → Bool
imu_is_synth ImuSourceKind.synth = true
imu_is_synth _ = false

abbrev pub imu_is_mav : ImuSourceKind → Bool
imu_is_mav ImuSourceKind.mav = true
imu_is_mav _ = false

abbrev pub controller_is_mav : ControllerKind → Bool
controller_is_mav ControllerKind.mav = true
controller_is_mav ControllerKind.console = false

pub data Refusal : Type 0 where
  bad_config synth_to_mav default_duration no_vehicle no_expected_home : Refusal

module _ (F : Floats) where
  -- What the tasks are built of: the merged options, the vehicle, and the filter of the MAVLink
  -- socket if one is bound.
  pub record Launch : Type 0 where
    pub cli : Cli F
    pub vehicle_profile : Option VehicleProfile
    pub filter : Option MavFilter

  pub data Outcome : Type 0 where
    printed : Cli F → Outcome
    refused : Refusal → Outcome
    started : Launch → Outcome

  abbrev pub synth_source : Cli F → Bool
  synth_source cli = gps_is_synth cli.gps_source || imu_is_synth cli.imu_source

  abbrev pub needs_mav : Cli F → Bool
  needs_mav cli =
      gps_is_mav cli.gps_source || (imu_is_mav cli.imu_source || controller_is_mav cli.controller)

  unfoldable pub mav_filter : Cli F → MavFilter
  mav_filter cli = record {
    allowed_source_ip = if cli.mav_no_source_filter then none else some (cli.mav_target.0);
    autopilot_sysid = if cli.mav_no_sysid_filter then none else some cli.mav_target_system;
    allow_any_source_port = cli.mav_allow_any_source_port;
  }

  -- The profile and the filter, as the code chooses them behind the guards.
  unfoldable pub launch : Cli F → Launch
  launch cli = record {
    cli = cli;
    vehicle_profile = if needs_mav cli then cli.vehicle else none;
    filter = if needs_mav cli then some (mav_filter cli) else none;
  }

  -- The guards in their order, and what is bound behind them.
  unfoldable pub guard_start : Bool → Cli F → Outcome
  guard_start duration_explicit cli =
      let synth = synth_source cli in
      let mav = needs_mav cli in
      if synth && (controller_is_mav cli.controller && not cli.allow_synth_to_mav)
      then refused Refusal.synth_to_mav
      else if not synth && not duration_explicit
      then refused Refusal.default_duration
      else if mav && not (is_some cli.vehicle)
      then refused Refusal.no_vehicle
      else if mav && (not (is_some cli.expected_home) && not cli.allow_no_boot_anchor_check)
      then refused Refusal.no_expected_home
      else started (launch cli)

  module _ (read_to_string : Text → Option Text) (from_str : Text → Option (AppConfig F))
      (parse_addr : Text → Option SocketAddr) (explicit : Arg → Bool) where
    -- The command line as clap parses it gives `cli` and `explicit`.
    unfoldable pub run : Cli F → Outcome
    run cli = elim (load F read_to_string from_str cli.config) [
      | none ↦ refused Refusal.bad_config
      | some file_cfg ↦ elim (merge_config_into_cli F parse_addr explicit file_cfg cli) [
        | none ↦ refused Refusal.bad_config
        | some merged ↦
            let lasts = explicit Arg.duration || is_some file_cfg.process.duration in
            if merged.print_config then printed merged else guard_start lasts merged
      ]
    ]
