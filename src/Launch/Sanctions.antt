-- ===== src/Launch/Sanctions.antt =====
-- src/bin/flyingsquirrel.rs with src/config.rs: what a start without safety bypasses on the command line
-- can come to.
use flyingsquirrel.Base.{
  ◌≡◌, refl, sym, ap, ◌∙◌, Bool, true, false, not, ◌&&◌, ◌||◌, Option, none, some, is_some, arith,
  if◌then◌else◌, Bool-cases, Option-cases, inl, inr,
}
use mathlib.Core.Path.{subst}
use flyingsquirrel.Base.Floats.{Floats}
use flyingsquirrel.Launch.Words.{Text}
use flyingsquirrel.Launch.Config.{
  AppConfig, load, offends, default_app_config, reject_toml_safety_bypasses,
}
use flyingsquirrel.Launch.Options.{Arg, SocketAddr}
use flyingsquirrel.Launch.Cli.{Cli, merge_config_into_cli, merge_parsed, merge_plain}
use flyingsquirrel.Launch.Guards.{
  any_ip, any_sysid, any_port, picked, vehicle_known, guarded, bound_ip, bound_sysid, bound_port,
  filter_ip, filter_sysid, filter_port, covered, covered_home,
}
use flyingsquirrel.Launch.Startup.{
  Launch, Outcome, synth_source, needs_mav, controller_is_mav, mav_filter, launch, guard_start, run,
}

module _ (F : Floats) where
  -- Each danger of a launch stands on an argument of the command line, or does not arise.
  pub record Sanctioned (explicit : Arg → Bool) (file : AppConfig F) (l : Launch F) : Type 0 where
    pub harmless :
        synth_source F l.cli
          && (controller_is_mav l.cli.controller && not (explicit Arg.allow_synth_to_mav))
        ≡ false
    pub lasting :
        not (synth_source F l.cli) && not (explicit Arg.duration || is_some file.process.duration)
        ≡ false
    pub checked : needs_mav F l.cli && not (is_some l.vehicle_profile) ≡ false
    pub anchored :
        needs_mav F l.cli
          && (not (is_some l.cli.expected_home) && not (explicit Arg.allow_no_boot_anchor_check))
        ≡ false
    pub from_peer : any_ip l.filter && not (explicit Arg.mav_no_source_filter) ≡ false
    pub from_autopilot : any_sysid l.filter && not (explicit Arg.mav_no_sysid_filter) ≡ false
    pub from_port : any_port l.filter && not (explicit Arg.mav_allow_any_source_port) ≡ false

  kept :
      (b : Bool) (x y : AppConfig F) → (if b then none else some x) ≡ some y → (b ≡ false) × (x ≡ y)
  kept true x y h = ground arith
  kept false x y h = (refl, cc h)

  -- Nothing that is loaded sets a bypass.
  reject-clean :
      (read cfg : AppConfig F)
      → reject_toml_safety_bypasses F read ≡ some cfg
      → offends F cfg ≡ false
  unfolding reject_toml_safety_bypasses
  reject-clean read cfg h =
      let (clean, same) = kept (offends F read) read cfg h in ap (offends F) (sym same) ∙ clean

  default_clean : offends F (default_app_config F) ≡ false
  unfolding offends default_app_config
  default_clean = refl

  all_clear :
      (a b c d e : Bool)
      → a || (b || (c || (d || e))) ≡ false
      → (a ≡ false) × (b ≡ false) × (c ≡ false) × (d ≡ false) × (e ≡ false)
  all_clear a b c d e h = ground arith

  module _ (read_to_string : Text → Option Text) (from_str : Text → Option (AppConfig F))
      (parse_addr : Text → Option SocketAddr) (explicit : Arg → Bool) where
    load-clean :
        (path : Option Text) (cfg : AppConfig F)
        → load F read_to_string from_str path ≡ some cfg
        → offends F cfg ≡ false
    unfolding load
    load-clean none cfg h =
        ap (λ o. elim o [ none ↦ false | some c ↦ offends F c ]) (sym h) ∙ default_clean
    load-clean (some p) cfg h = elim (Option-cases (read_to_string p)) [
      | inl e ↦ ground arith
      | inr (text, e) ↦ elim (Option-cases (from_str text)) [
        | inl f ↦ ground arith
        | inr (read, f) ↦ reject-clean read cfg (ground arith)
      ]
    ]

    merged :
        (file : AppConfig F) (cli m : Cli F)
        → merge_config_into_cli F parse_addr explicit file cli ≡ some m
        → (p : Cli F) × (merge_plain F parse_addr explicit file p ≡ m)
    unfolding merge_config_into_cli
    merged file cli m h = elim (Option-cases (merge_parsed F parse_addr explicit file cli)) [
      | inl e ↦ ground arith
      | inr (p, e) ↦ (p, ground arith)
    ]

    sanctioned :
        (file : AppConfig F) (p : Cli F) (l : Launch F)
        → offends F file ≡ false
        → guard_start F
            (explicit Arg.duration || is_some file.process.duration)
            (merge_plain F parse_addr explicit file p)
          ≡ Outcome.started l
        → Sanctioned explicit file l
    unfolding offends merge_plain launch
    sanctioned file p l clean h =
        let cli = merge_plain F parse_addr explicit file p in
        let mav = needs_mav F cli in
        let (synth, home, any_source, any_id, any) =
          all_clear file.process.allow_synth_to_mav file.boot_anchor.allow_no_boot_anchor_check
            file.mav.no_source_filter file.mav.no_sysid_filter file.mav.allow_any_source_port
            clean in
        let (same, harmless, lasting, known, anchored) =
          guarded F (explicit Arg.duration || is_some file.process.duration) cli l h in
        subst (Sanctioned explicit file) same (record {
          harmless =
              covered F (synth_source F cli) (controller_is_mav cli.controller)
                cli.allow_synth_to_mav (explicit Arg.allow_synth_to_mav) harmless
                (picked F _ p.allow_synth_to_mav _ synth);
          lasting = lasting;
          checked = vehicle_known F mav cli.vehicle known;
          anchored =
              covered_home F mav (is_some cli.expected_home) cli.allow_no_boot_anchor_check
                (explicit Arg.allow_no_boot_anchor_check) anchored
                (picked F _ p.allow_no_boot_anchor_check _ home);
          from_peer =
              bound_ip F mav cli.mav_no_source_filter (explicit Arg.mav_no_source_filter)
                (mav_filter F cli) (filter_ip F cli)
                (picked F _ p.mav_no_source_filter _ any_source);
          from_autopilot =
              bound_sysid F mav cli.mav_no_sysid_filter (explicit Arg.mav_no_sysid_filter)
                (mav_filter F cli) (filter_sysid F cli) (picked F _ p.mav_no_sysid_filter _ any_id);
          from_port =
              bound_port F mav cli.mav_allow_any_source_port
                (explicit Arg.mav_allow_any_source_port) (mav_filter F cli) (filter_port F cli)
                (picked F _ p.mav_allow_any_source_port _ any);
        })

    begun :
        (file : AppConfig F) (merged : Cli F) (l : Launch F)
        → (if merged.print_config
            then Outcome.printed merged
            else guard_start F (explicit Arg.duration || is_some file.process.duration) merged)
          ≡ Outcome.started l
        → guard_start F (explicit Arg.duration || is_some file.process.duration) merged
          ≡ Outcome.started l
    begun file merged l h = elim (Bool-cases merged.print_config) [
      | inl e ↦ ground arith
      | inr e ↦ ground arith
    ]

    -- If the program goes on to its tasks, a configuration was loaded (the defaults where no file was
    -- named), and whatever the file says, what the command line does not ask for does not happen: a synthetic
    -- source drives the MAVLink controller only under an explicit --allow-synth-to-mav; sources that are all
    -- real have a duration from the command line or the file; with any MAVLink source or controller the vehicle
    -- is known, and the expected home too unless the command line has --allow-no-boot-anchor-check; and
    -- the bound socket takes datagrams of any address, any system id or any port only where the
    -- command line has the flag for it.
    pub run-started :
        (cli : Cli F) (l : Launch F)
        → run F read_to_string from_str parse_addr explicit cli ≡ Outcome.started l
        → (file : AppConfig F) × (load F read_to_string from_str cli.config ≡ some file)
          × Sanctioned explicit file l
    unfolding run
    run-started cli l h = elim (Option-cases (load F read_to_string from_str cli.config)) [
      | inl e ↦ ground arith
      | inr (file, e) ↦ elim (Option-cases (merge_config_into_cli F parse_addr explicit file cli)) [
        | inl f ↦ ground arith
        | inr (m, f) ↦
            let (p, same) = merged file cli m f in
            let started_m = begun file m l (ground arith) in
            (
              file,
              e,
              sanctioned file p l (load-clean cli.config file e) (
                  ap (guard_start F (explicit Arg.duration || is_some file.process.duration)) same
                  ∙ started_m),
            )
      ]
    ]
