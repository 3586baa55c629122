-- ===== src/Launch/Cli.antt =====
-- src/bin/flyingsquirrel.rs: the options `Cli` and `merge_config_into_cli`. `explicit` is
-- `cli_explicit`, which asks the clap crate whether an argument stood on the command line. Std's
-- parser of a `SocketAddr` is a parameter. An error is `none`.
use flyingsquirrel.Base.{ℕ, Bool, Option, none, some, or_else, unwrap_or, if◌then◌else◌}
use flyingsquirrel.Base.Floats.{Floats}
use flyingsquirrel.Mav.Modes.{VehicleProfile}
use flyingsquirrel.Launch.Words.{Text}
use flyingsquirrel.Launch.Config.{AppConfig}
use flyingsquirrel.Launch.Options.{
  GpsSourceKind, ImuSourceKind, ControllerKind, Scenario, Arg, SocketAddr, parse_gps_source,
  parse_imu_source, parse_controller, parse_scenario, parse_vehicle,
}

-- A value that the command line may give, and the file's otherwise; the same where the file's word
-- is parsed first.
abbrev pub pick : {A : Type 0} → Bool → A → A → A
pick given here there = if given then here else there

abbrev pick_parsed : {A : Type 0} → Bool → A → Option A → Option A
pick_parsed given here there = if given then some here else there

-- The same for an option, which a value from anywhere but the file keeps too.
abbrev pick_option : {A : Type 0} → Bool → Option A → Option A → Option A
pick_option given here there = if given then here else or_else here there

-- Rust's `?`.
infixl 5 ◌>>=◌
abbrev pub ◌>>=◌ : {A B : Type 0} → Option A → (A → Option B) → Option B
◌>>=◌ none f = none
◌>>=◌ (some a) f = f a

module _ (F : Floats) where
  open F use {F32, F64}

  pub record Cli : Type 0 where
    pub config : Option Text
    pub print_config : Bool
    pub gps_source : GpsSourceKind
    pub imu_source : ImuSourceKind
    pub controller : ControllerKind
    pub scenario : Scenario
    pub seed : ℕ
    pub gps_port : Text
    pub gps_baud : ℕ
    pub imu_bus : Text
    pub imu_addr : ℕ
    pub imu_rate : F32
    pub imu_axis_map : Text
    pub mav_bind : SocketAddr
    pub mav_target : SocketAddr
    pub mav_target_system : ℕ
    pub mav_target_component : ℕ
    pub mav_no_source_filter : Bool
    pub mav_no_sysid_filter : Bool
    pub mav_allow_any_source_port : Bool
    pub allow_synth_to_mav : Bool
    pub allow_no_boot_anchor_check : Bool
    pub forensic_dir : Option Text
    pub forensic_window_s : F64
    pub vehicle : Option VehicleProfile
    pub expected_home : Option Text
    pub max_home_distance_m : F64
    pub duration : ℕ
    pub json_log : Option Text
    pub log_level : Text

  module _ (parse_addr : Text → Option SocketAddr) (explicit : Arg → Bool) (cfg : AppConfig F) where
    -- `if !cli_explicit(matches, "vehicle") && cli.vehicle.is_none()`.
    unfoldable pub merge_vehicle : Option VehicleProfile → Option (Option VehicleProfile)
    merge_vehicle (some v) = some (some v)
    merge_vehicle none = if explicit Arg.vehicle then some none else elim cfg.mav.vehicle [
      | none ↦ some none
      | some s ↦ elim (parse_vehicle s) [ none ↦ none | some v ↦ some (some v) ]
    ]

    -- The fields whose words the merge parses: it ends if a word is none of those known. No field is
    -- read behind its own merge, so they are merged in one place.
    unfoldable pub merge_parsed : Cli → Option Cli
    merge_parsed cli = do
      gps ←
          pick_parsed (explicit Arg.gps_source) cli.gps_source
            (parse_gps_source cfg.sources.gps_source)
      imu ←
          pick_parsed (explicit Arg.imu_source) cli.imu_source
            (parse_imu_source cfg.sources.imu_source)
      act ←
          pick_parsed (explicit Arg.controller) cli.controller
            (parse_controller cfg.sources.controller)
      run ← pick_parsed (explicit Arg.scenario) cli.scenario (parse_scenario cfg.scenario.scenario)
      here ← pick_parsed (explicit Arg.mav_bind) cli.mav_bind (parse_addr cfg.mav.bind_to)
      peer ← pick_parsed (explicit Arg.mav_target) cli.mav_target (parse_addr cfg.mav.target)
      profile ← merge_vehicle cli.vehicle
      some (record cli {
        gps_source = gps;
        imu_source = imu;
        controller = act;
        scenario = run;
        mav_bind = here;
        mav_target = peer;
        vehicle = profile;
      })

    -- The fields that the merge copies.
    unfoldable pub merge_plain : Cli → Cli
    merge_plain cli = record cli {
      seed = pick (explicit Arg.seed) cli.seed cfg.scenario.seed;
      gps_port = pick (explicit Arg.gps_port) cli.gps_port cfg.serial.gps_port;
      gps_baud = pick (explicit Arg.gps_baud) cli.gps_baud cfg.serial.gps_baud;
      imu_bus = pick (explicit Arg.imu_bus) cli.imu_bus cfg.i2c.imu_bus;
      imu_addr = pick (explicit Arg.imu_addr) cli.imu_addr cfg.i2c.imu_addr;
      imu_rate = pick (explicit Arg.imu_rate) cli.imu_rate cfg.i2c.imu_rate;
      imu_axis_map = pick (explicit Arg.imu_axis_map) cli.imu_axis_map cfg.i2c.axis_map;
      mav_target_system =
          pick (explicit Arg.mav_target_system) cli.mav_target_system cfg.mav.target_system;
      mav_target_component =
          pick (explicit Arg.mav_target_component) cli.mav_target_component
            cfg.mav.target_component;
      mav_no_source_filter =
          pick (explicit Arg.mav_no_source_filter) cli.mav_no_source_filter
            cfg.mav.no_source_filter;
      mav_no_sysid_filter =
          pick (explicit Arg.mav_no_sysid_filter) cli.mav_no_sysid_filter cfg.mav.no_sysid_filter;
      mav_allow_any_source_port =
          pick (explicit Arg.mav_allow_any_source_port) cli.mav_allow_any_source_port
            cfg.mav.allow_any_source_port;
      expected_home =
          pick_option (explicit Arg.expected_home) cli.expected_home cfg.boot_anchor.expected_home;
      max_home_distance_m =
          pick (explicit Arg.max_home_distance_m) cli.max_home_distance_m
            (unwrap_or cfg.boot_anchor.max_home_distance_m cli.max_home_distance_m);
      allow_no_boot_anchor_check =
          pick (explicit Arg.allow_no_boot_anchor_check) cli.allow_no_boot_anchor_check
            cfg.boot_anchor.allow_no_boot_anchor_check;
      forensic_dir = pick_option (explicit Arg.forensic_dir) cli.forensic_dir cfg.forensic.dir;
      forensic_window_s =
          pick (explicit Arg.forensic_window_s) cli.forensic_window_s
            (unwrap_or cfg.forensic.window_s cli.forensic_window_s);
      duration =
          pick (explicit Arg.duration) cli.duration (unwrap_or cfg.process.duration cli.duration);
      json_log = pick_option (explicit Arg.json_log) cli.json_log cfg.process.json_log;
      log_level = pick (explicit Arg.log_level) cli.log_level cfg.process.log_level;
      allow_synth_to_mav =
          pick (explicit Arg.allow_synth_to_mav) cli.allow_synth_to_mav
            cfg.process.allow_synth_to_mav;
    }

    unfoldable pub merge_config_into_cli : Cli → Option Cli
    merge_config_into_cli cli = do parsed ← merge_parsed cli; some (merge_plain parsed)
