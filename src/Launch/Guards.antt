-- ===== src/Launch/Guards.antt =====
-- src/bin/flyingsquirrel.rs: what the guards of `run` let pass, and what a merged flag can be.
use flyingsquirrel.Base.{
  ◌≡◌, refl, Bool, true, false, not, ◌&&◌, Option, none, some, is_some, arith, if◌then◌else◌,
}
use flyingsquirrel.Base.Floats.{Floats}
use flyingsquirrel.Mav.Modes.{VehicleProfile}
use flyingsquirrel.Mav.Listener.{MavFilter}
use flyingsquirrel.Launch.Cli.{Cli, pick}
use flyingsquirrel.Launch.Startup.{
  Launch, Outcome, Refusal, synth_source, needs_mav, controller_is_mav, mav_filter, launch,
  guard_start,
}

-- A bound socket that takes datagrams of any address, of any system id, or of any port.
abbrev pub any_ip : Option MavFilter → Bool
any_ip none = false
any_ip (some filter) = not (is_some filter.allowed_source_ip)

abbrev pub any_sysid : Option MavFilter → Bool
any_sysid none = false
any_sysid (some filter) = not (is_some filter.autopilot_sysid)

abbrev pub any_port : Option MavFilter → Bool
any_port none = false
any_port (some filter) = filter.allow_any_source_port

module _ (F : Floats) where
  -- Four refusals that a start has passed.
  passed :
      (a b c d : Bool) (x l : Launch F)
      → (if a
          then Outcome.refused Refusal.synth_to_mav
          else if b
          then Outcome.refused Refusal.default_duration
          else if c
          then Outcome.refused Refusal.no_vehicle
          else if d
          then Outcome.refused Refusal.no_expected_home
          else Outcome.started x)
        ≡ Outcome.started l
      → (a ≡ false) × (b ≡ false) × (c ≡ false) × (d ≡ false) × (x ≡ l)
  passed true b c d x l h = ground arith
  passed false true c d x l h = ground arith
  passed false false true d x l h = ground arith
  passed false false false true x l h = ground arith
  passed false false false false x l h = (refl, refl, refl, refl, cc h)

  -- A flag that is merged from a file without it.
  pub picked : (e b c : Bool) → c ≡ false → pick e b c && not e ≡ false
  picked e b c h = ground arith

  pub vehicle_known :
      (mav : Bool) (v : Option VehicleProfile)
      → mav && not (is_some v) ≡ false
      → mav && not (is_some (if mav then v else none)) ≡ false
  vehicle_known mav v h = ground arith

  pub guarded :
      (d : Bool) (cli : Cli F) (l : Launch F)
      → guard_start F d cli ≡ Outcome.started l
      → (launch F cli ≡ l)
        × (synth_source F cli && (controller_is_mav cli.controller && not cli.allow_synth_to_mav)
            ≡ false)
        × (not (synth_source F cli) && not d ≡ false)
        × (needs_mav F cli && not (is_some cli.vehicle) ≡ false)
        × (needs_mav F cli
              && (not (is_some cli.expected_home) && not cli.allow_no_boot_anchor_check)
            ≡ false)
  unfolding guard_start
  guarded d cli l h =
      let mav = needs_mav F cli in
      let (s, t, v, a, e) =
        passed
          (synth_source F cli && (controller_is_mav cli.controller && not cli.allow_synth_to_mav))
          (not (synth_source F cli) && not d) (mav && not (is_some cli.vehicle))
          (mav && (not (is_some cli.expected_home) && not cli.allow_no_boot_anchor_check))
          (launch F cli) l h in
      (e, s, t, v, a)

  pub bound_ip :
      (mav all given : Bool) (filter : MavFilter)
      → not (is_some filter.allowed_source_ip) ≡ all
      → all && not given ≡ false
      → any_ip (if mav then some filter else none) && not given ≡ false
  bound_ip mav all given filter e h = ground arith

  pub bound_sysid :
      (mav all given : Bool) (filter : MavFilter)
      → not (is_some filter.autopilot_sysid) ≡ all
      → all && not given ≡ false
      → any_sysid (if mav then some filter else none) && not given ≡ false
  bound_sysid mav all given filter e h = ground arith

  pub bound_port :
      (mav all given : Bool) (filter : MavFilter)
      → filter.allow_any_source_port ≡ all
      → all && not given ≡ false
      → any_port (if mav then some filter else none) && not given ≡ false
  bound_port mav all given filter e h = ground arith

  pub filter_ip :
      (cli : Cli F) → not (is_some (mav_filter F cli).allowed_source_ip) ≡ cli.mav_no_source_filter
  unfolding mav_filter
  filter_ip cli = ground arith

  pub filter_sysid :
      (cli : Cli F) → not (is_some (mav_filter F cli).autopilot_sysid) ≡ cli.mav_no_sysid_filter
  unfolding mav_filter
  filter_sysid cli = ground arith

  pub filter_port :
      (cli : Cli F) → (mav_filter F cli).allow_any_source_port ≡ cli.mav_allow_any_source_port
  unfolding mav_filter
  filter_port cli = refl

  pub covered :
      (s c a g : Bool) → s && (c && not a) ≡ false → a && not g ≡ false → s && (c && not g) ≡ false
  covered s c a g h k = ground arith

  pub covered_home :
      (s c a g : Bool)
      → s && (not c && not a) ≡ false
      → a && not g ≡ false
      → s && (not c && not g) ≡ false
  covered_home s c a g h k = covered s (not c) a g h k
