-- ===== src/Launch/Config.antt =====
-- src/config.rs: the sections of a configuration file, `AppConfig` with its defaults, `load` and the
-- refusal of safety bypasses. Reading a file and the toml crate's parser are parameters; an error is
-- `none`, its text is left out.
use flyingsquirrel.Base.{ℕ, Bool, false, ◌||◌, Option, none, some, if◌then◌else◌}
use flyingsquirrel.Base.Floats.{Floats}
use flyingsquirrel.Launch.Words.{
  Text, word_synth, word_console, word_gradual_drift, word_tty_usb0, word_i2c_1, word_axes,
  word_bind_address, word_target_address, word_info,
}

pub record Sources : Type 0 where
  pub gps_source : Text
  pub imu_source : Text
  pub controller : Text

pub record ScenarioSection : Type 0 where
  pub scenario : Text
  pub seed : ℕ

pub record Serial : Type 0 where
  pub gps_port : Text
  pub gps_baud : ℕ

pub record MavSection : Type 0 where
  pub bind_to : Text
  pub target : Text
  pub target_system : ℕ
  pub target_component : ℕ
  pub no_source_filter : Bool
  pub no_sysid_filter : Bool
  pub allow_any_source_port : Bool
  pub vehicle : Option Text

pub record Process : Type 0 where
  pub duration : Option ℕ
  pub json_log : Option Text
  pub log_level : Text
  pub allow_synth_to_mav : Bool

abbrev default_sources : Sources
default_sources = record {
  gps_source = word_synth;
  imu_source = word_synth;
  controller = word_console;
}

abbrev default_scenario : ScenarioSection
default_scenario = record { scenario = word_gradual_drift; seed = 9160129794472411136 }

abbrev default_serial : Serial
default_serial = record { gps_port = word_tty_usb0; gps_baud = 9600 }

abbrev default_mav : MavSection
default_mav = record {
  bind_to = word_bind_address;
  target = word_target_address;
  target_system = 1;
  target_component = 1;
  no_source_filter = false;
  no_sysid_filter = false;
  allow_any_source_port = false;
  vehicle = none;
}

abbrev default_process : Process
default_process = record {
  duration = none;
  json_log = none;
  log_level = word_info;
  allow_synth_to_mav = false;
}

module _ (F : Floats) where
  open F use {F32, F64, f32}

  pub record I2c : Type 0 where
    pub imu_bus : Text
    pub imu_addr : ℕ
    pub imu_rate : F32
    pub axis_map : Text

  pub record ForensicSection : Type 0 where
    pub dir : Option Text
    pub window_s : Option F64

  pub record BootAnchor : Type 0 where
    pub expected_home : Option Text
    pub max_home_distance_m : Option F64
    pub allow_no_boot_anchor_check : Bool

  pub record AppConfig : Type 0 where
    pub sources : Sources
    pub scenario : ScenarioSection
    pub serial : Serial
    pub i2c : I2c
    pub mav : MavSection
    pub boot_anchor : BootAnchor
    pub forensic : ForensicSection
    pub process : Process

  abbrev default_i2c : I2c
  default_i2c = record {
    imu_bus = word_i2c_1;
    imu_addr = 104;
    imu_rate = f32.lit 100 0;
    axis_map = word_axes;
  }

  -- The derived `Default`: the section's own where it has one, and `None` or `false`.
  unfoldable pub default_app_config : AppConfig
  default_app_config = record {
    sources = default_sources;
    scenario = default_scenario;
    serial = default_serial;
    i2c = default_i2c;
    mav = default_mav;
    boot_anchor = record {
      expected_home = none;
      max_home_distance_m = none;
      allow_no_boot_anchor_check = false;
    };
    forensic = record { dir = none; window_s = none };
    process = default_process;
  }

  -- `offenders` is not empty.
  unfoldable pub offends : AppConfig → Bool
  offends cfg =
      cfg.process.allow_synth_to_mav
      || (cfg.boot_anchor.allow_no_boot_anchor_check
          || (cfg.mav.no_source_filter
              || (cfg.mav.no_sysid_filter || cfg.mav.allow_any_source_port)))

  unfoldable pub reject_toml_safety_bypasses : AppConfig → Option AppConfig
  reject_toml_safety_bypasses cfg = if offends cfg then none else some cfg

  module _ {PathBuf : Type 0} (read_to_string : PathBuf → Option Text)
      (from_str : Text → Option AppConfig) where
    unfoldable pub load : Option PathBuf → Option AppConfig
    load none = some default_app_config
    load (some p) = elim (read_to_string p) [
      | none ↦ none
      | some text ↦ elim (from_str text) [
        | none ↦ none
        | some cfg ↦ reject_toml_safety_bypasses cfg
      ]
    ]
