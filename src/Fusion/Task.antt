-- ===== src/Fusion/Task.antt =====
-- src/fusion.rs: the state of `Fusion`, the pre-flight gate, `on_imu` and the operator's reset. The dead
-- reckoner is the interface `Reckoner`. A handler returns the new state and what it does to the
-- outside in order. The forensic ring and the logs are left out.
use flyingsquirrel.Base.{
  ℕ, ◌*◌, ◌^◌, Bool, true, false, ◌&&◌, ◌||◌, List, [], ◌∷◌, Option, none, some, ◌==◌,
  if◌then◌else◌,
}
use flyingsquirrel.Base.Floats.{Floats, nought}
use flyingsquirrel.Types.{
  GpsFix, SpoofingEvent, SpoofKind, normal, state_transition, preflight_passed, preflight_failed,
}
use flyingsquirrel.Detect.StateMachine.{StateMachine, manual_reset_to_normal}
use flyingsquirrel.Detect.StateMachine
use flyingsquirrel.Detect.Residual.{ResidualBuffer, Snapshot, push}
use flyingsquirrel.Detect.Residual
use flyingsquirrel.Mav.Monitor.{MavMonitor, heartbeat_fresh}
use flyingsquirrel.Nav.Reckoner.{Reckoner, ImuSample}
use flyingsquirrel.Fusion.Config.{FusionConfig}

pub data PreflightState : Type 0 where
  initializing ready : PreflightState

abbrev pub is_ready : PreflightState → Bool
is_ready ready = true
is_ready initializing = false

pub record PreflightChecklist : Type 0 where
  pub static_init_done : Bool
  pub first_fix_accepted : Bool
  pub heartbeat_seen : Bool
  pub autopilot_matches : Bool

unfoldable pub all_ok : PreflightChecklist → Bool
all_ok c = c.static_init_done && c.first_fix_accepted && c.heartbeat_seen && c.autopilot_matches

-- `heartbeat fresh && seen == want`, or true without an expectation.
abbrev pub matches_expected : Option ℕ → Bool → ℕ → Bool
matches_expected none fresh seen = true
matches_expected (some want) fresh seen = fresh && seen == want

module _ (F : Floats) (N : Reckoner F) where
  open F use {F32, F64, f32, f64, secs}

  -- An event on the stream, a call of the controller, a read-back or a forensic dump that is spawned.
  pub data Effect : Type 0 where
    event : SpoofingEvent F → Effect
    severs_gps engages_rtb verifies_sever verifies_rtb dumps resets_controller : Effect

  -- What the handlers read from the outside: the clock, the shared monitor, whether the dump's slot
  -- is claimed, and how the controller's two actions turn out.
  pub record World : Type 0 where
    pub now_ns : ℕ
    pub mav_monitor : Option (MavMonitor F)
    pub dump_claimed : Bool
    pub sever_ok : Bool
    pub engage_ok : Bool

  pub record Fusion : Type 0 where
    pub nav : N.State
    pub fsm : StateMachine F
    pub buffer : ResidualBuffer F
    pub last_gps_t_secs : Option F64
    pub gps_dropout_freeze_s : F32
    pub re_anchor_max_distance_m : F32
    pub no_doppler_streak : ℕ
    pub frozen_anchor_lla : Option (F64 × F64)
    pub frozen_fix_streak : ℕ
    pub frozen_imu_displacement_m : F64
    pub last_gps_alt : Option (F64 × F64)
    pub max_vertical_rate_mps : F32
    pub preflight : PreflightState
    pub checklist : PreflightChecklist
    pub expected_autopilot : Option ℕ
    pub last_preflight_failed_emit_s : F64
    pub forensic : Bool

  -- `Fusion::new`, of a new dead reckoner.
  unfoldable pub new : FusionConfig F → N.State → Fusion
  new cfg nav = record {
    nav = nav;
    fsm = StateMachine.new F cfg.detect;
    buffer = Residual.new F cfg.residual_window_s cfg.max_imu_rate_hz;
    last_gps_t_secs = none;
    gps_dropout_freeze_s = cfg.detect.gps_dropout_freeze_s;
    re_anchor_max_distance_m = cfg.detect.re_anchor_max_distance_m;
    no_doppler_streak = 0;
    frozen_anchor_lla = none;
    frozen_fix_streak = 0;
    frozen_imu_displacement_m = nought f64;
    last_gps_alt = none;
    max_vertical_rate_mps = cfg.detect.max_vertical_rate_mps;
    preflight = initializing;
    checklist = record {
      static_init_done = false;
      first_fix_accepted = false;
      heartbeat_seen = true;
      autopilot_matches = true;
    };
    expected_autopilot = none;
    last_preflight_failed_emit_s = f64.neg f64.infinity;
    forensic = false;
  }

  abbrev pub event_at : Fusion → ℕ → SpoofKind → F32 → Effect
  event_at s ns kind residual_m =
      event (record { mono_ns = ns; kind = kind; state = s.fsm.state; residual_m = residual_m })

  -- The checklist with the two facts that the HEARTBEAT tells.
  unfoldable pub refresh_checklist : Fusion → World → PreflightChecklist
  refresh_checklist s w = elim w.mav_monitor [
    | none ↦ s.checklist
    | some m ↦
        let fresh = heartbeat_fresh F m w.now_ns (3 * 10 ^ 9) in
        record s.checklist {
          heartbeat_seen = fresh;
          autopilot_matches = matches_expected s.expected_autopilot fresh m.current_autopilot;
        }
  ]

  unfoldable pub refresh_preflight : Fusion → World → GpsFix F → Fusion × List Effect
  refresh_preflight s w fix =
      let t = secs fix.mono_ns in
      let s' = record s { checklist = refresh_checklist s w } in
      if is_ready s.preflight
      then (s, [])
      else if all_ok s'.checklist
      then (
        record s' { preflight = ready },
        event_at s' fix.mono_ns preflight_passed (nought f32) ∷ [],
      )
      else if f64.le (f64.lit 5 0) (f64.sub t s'.last_preflight_failed_emit_s)
      then (
        record s' { last_preflight_failed_emit_s = t },
        event_at s' fix.mono_ns preflight_failed (nought f32) ∷ [],
      )
      else (s', [])

  abbrev pub push_snapshot : ResidualBuffer F → Option (Snapshot F) → ResidualBuffer F
  push_snapshot b none = b
  push_snapshot b (some x) = push F b x

  unfoldable pub on_imu : Fusion → ImuSample F → Fusion
  on_imu s sample =
      let (nav', snapshot) = N.step s.nav sample in
      record s {
        nav = nav';
        buffer = push_snapshot s.buffer snapshot;
        checklist = record s.checklist {
          static_init_done = s.checklist.static_init_done || N.is_initialized nav';
        };
      }

  -- The branch of `run` for an operator's reset.
  unfoldable pub on_reset : Fusion → World → Fusion × List Effect
  on_reset s w =
      let s' = record s {
        fsm = manual_reset_to_normal F s.fsm;
        nav = N.set_state s.nav normal;
        last_gps_t_secs = none;
        frozen_anchor_lla = none;
        frozen_fix_streak = 0;
        frozen_imu_displacement_m = nought f64;
        no_doppler_streak = 0;
        last_gps_alt = none;
      } in
      (
        s',
        resets_controller
            ∷ event (record {
              mono_ns = w.now_ns;
              kind = state_transition;
              state = normal;
              residual_m = nought f32;
            })
            ∷ [],
      )
