-- ===== src/Launch/Replay.antt =====
-- src/bin/flyingsquirrel.rs: a start from the file that --print-config printed.
use flyingsquirrel.Base.{
  ◌≡◌, refl, sym, ap, ◌∙◌, is_some, Bool, true, false, Bool-cases, inl, inr, Option, none, some,
  if◌then◌else◌,
}
use flyingsquirrel.Base.Floats.{Floats}
use flyingsquirrel.Mav.Modes.{VehicleProfile, ardu_copter, px4}
use flyingsquirrel.Launch.Words.{Text}
use flyingsquirrel.Launch.Options.{
  GpsSourceKind, ImuSourceKind, ControllerKind, Scenario, SocketAddr, parse_gps_source,
  parse_imu_source, parse_controller, parse_scenario, parse_vehicle,
}
use flyingsquirrel.Launch.Config.{AppConfig, load, offends, reject_toml_safety_bypasses}
use flyingsquirrel.Launch.Cli.{Cli, merge_config_into_cli, merge_parsed, merge_plain, merge_vehicle}
use flyingsquirrel.Launch.Startup.{Outcome, Refusal, run, guard_start}
use flyingsquirrel.Launch.Printed.{
  cli_to_app_config, print_gps_source, print_imu_source, print_controller, print_scenario,
  print_vehicle, print_profile,
}

parse-print_gps : (k : GpsSourceKind) → parse_gps_source (print_gps_source k) ≡ some k
unfolding parse_gps_source print_gps_source
parse-print_gps GpsSourceKind.synth = refl
parse-print_gps GpsSourceKind.mav = refl
parse-print_gps GpsSourceKind.serial = refl

parse-print_imu : (k : ImuSourceKind) → parse_imu_source (print_imu_source k) ≡ some k
unfolding parse_imu_source print_imu_source
parse-print_imu ImuSourceKind.synth = refl
parse-print_imu ImuSourceKind.mav = refl
parse-print_imu ImuSourceKind.i2c = refl

parse-print_controller : (k : ControllerKind) → parse_controller (print_controller k) ≡ some k
unfolding parse_controller print_controller
parse-print_controller ControllerKind.console = refl
parse-print_controller ControllerKind.mav = refl

parse-print_scenario : (k : Scenario) → parse_scenario (print_scenario k) ≡ some k
unfolding parse_scenario print_scenario
parse-print_scenario Scenario.clean = refl
parse-print_scenario Scenario.sudden_jump = refl
parse-print_scenario Scenario.gradual_drift = refl

parse-print_vehicle : (v : VehicleProfile) → parse_vehicle (print_vehicle v) ≡ some v
unfolding parse_vehicle print_vehicle
parse-print_vehicle ardu_copter = refl
parse-print_vehicle px4 = refl

module _ (F : Floats) (print_addr : SocketAddr → Text) (parse_addr : Text → Option SocketAddr)
    (parse-print_addr : (a : SocketAddr) → parse_addr (print_addr a) ≡ some a) where
  -- The optional arguments that a command line without them leaves unset.
  pub record Fresh (cli : Cli F) : Type 0 where
    pub vehicle : cli.vehicle ≡ none
    pub expected_home : cli.expected_home ≡ none
    pub forensic_dir : cli.forensic_dir ≡ none
    pub json_log : cli.json_log ≡ none

  vehicle_back :
      (cli : Cli F)
      → merge_vehicle F parse_addr (λ _. false) (cli_to_app_config F print_addr cli) none
        ≡ some cli.vehicle
  unfolding merge_vehicle cli_to_app_config print_profile
  vehicle_back cli = by_profile cli.vehicle
    where
      by_profile :
          (v : Option VehicleProfile)
          → (elim (print_profile v) [
            | none ↦ some none
            | some s ↦ elim (parse_vehicle s) [ none ↦ none | some w ↦ some (some w) ]
          ])
            ≡ some v
      by_profile none = refl
      by_profile (some v) = rw (parse-print_vehicle v) refl

  merge-print :
      (cli fresh : Cli F)
      → Fresh fresh
      → merge_config_into_cli F parse_addr (λ _. false) (cli_to_app_config F print_addr cli) fresh
        ≡ some (record cli { config = fresh.config; print_config = fresh.print_config })
  unfolding merge_config_into_cli merge_parsed merge_plain cli_to_app_config
  merge-print cli fresh f =
      rw
        (
          f.vehicle,
          f.expected_home,
          f.forensic_dir,
          f.json_log,
          parse-print_gps cli.gps_source,
          parse-print_imu cli.imu_source,
          parse-print_controller cli.controller,
          parse-print_scenario cli.scenario,
          parse-print_addr cli.mav_bind,
          parse-print_addr cli.mav_target,
          vehicle_back cli,
        )
        refl

  module _ (read_to_string : Text → Option Text) (from_str : Text → Option (AppConfig F))
      (path text : Text) (cli : Cli F) (is_file : read_to_string path ≡ some text)
      (is_toml : from_str text ≡ some (cli_to_app_config F print_addr cli)) where
    load_printed :
        load F read_to_string from_str (some path)
        ≡ reject_toml_safety_bypasses F (cli_to_app_config F print_addr cli)
    unfolding load
    load_printed = rw (is_file, is_toml, load) refl

    run_refused :
        (fresh : Cli F)
        → load F read_to_string from_str fresh.config ≡ none
        → run F read_to_string from_str parse_addr (λ _. false) fresh
          ≡ Outcome.refused Refusal.bad_config
    unfolding run
    run_refused fresh e = rw (e, run) refl

    run_guarded :
        (file : AppConfig F) (fresh merged : Cli F)
        → load F read_to_string from_str fresh.config ≡ some file
        → merge_config_into_cli F parse_addr (λ _. false) file fresh ≡ some merged
        → merged.print_config ≡ false
        → run F read_to_string from_str parse_addr (λ _. false) fresh
          ≡ guard_start F (is_some file.process.duration) merged
    unfolding run
    run_guarded file fresh merged e m p = rw (e, m, p, run) refl

    loaded :
        (fresh : Cli F) (bypass : Bool)
        → fresh.config ≡ some path
        → offends F (cli_to_app_config F print_addr cli) ≡ bypass
        → load F read_to_string from_str fresh.config
          ≡ (if bypass then none else some (cli_to_app_config F print_addr cli))
    unfolding reject_toml_safety_bypasses
    loaded fresh bypass named o =
        ap (load F read_to_string from_str) named
        ∙ load_printed
        ∙ ap (λ b. if b then none else some (cli_to_app_config F print_addr cli)) o

    -- The options that --print-config printed, once they are stored in a file that reads as they were,
    -- and the program is started with that file's name as its only argument: the start is refused
    -- if one of the five safety bypasses was on, and otherwise the guards get exactly the options that
    -- were printed (the file's name apart), with a duration that counts as chosen whether or not it had been.
    pub replay :
        (fresh : Cli F)
        → Fresh fresh
        → fresh.config ≡ some path
        → fresh.print_config ≡ false
        → run F read_to_string from_str parse_addr (λ _. false) fresh ≡ (
            if offends F (cli_to_app_config F print_addr cli)
            then Outcome.refused Refusal.bad_config
            else guard_start F true (record cli { config = some path; print_config = false }))
    unfolding cli_to_app_config
    replay fresh f named prints =
        elim (Bool-cases (offends F (cli_to_app_config F print_addr cli))) [
          | inl o ↦
              run_refused fresh (loaded fresh true named o)
              ∙ sym (ap (λ b. if b then Outcome.refused Refusal.bad_config else ended) o)
          | inr o ↦
              run_guarded (cli_to_app_config F print_addr cli) fresh
                (record cli { config = fresh.config; print_config = fresh.print_config })
                (loaded fresh false named o) (merge-print cli fresh f) prints
              ∙ rw (named, prints)
                  (sym (ap (λ b. if b then Outcome.refused Refusal.bad_config else ended) o))
        ]
      where
        ended : Outcome F
        ended = guard_start F true (record cli { config = some path; print_config = false })
