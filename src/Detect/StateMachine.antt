-- ===== src/Detect/StateMachine.antt =====
-- src/detect/state_machine.rs: Normal, Suspicious and the latched Spoofed, with the dwell timers,
-- the pause across GPS dropouts, and the veto of a clear. A method that mutates `self` returns the
-- new state; `evaluate` also returns its events.
pub mod Frame
pub mod Invariant
pub mod Transitions
pub mod Escalation
pub mod Pause
use flyingsquirrel.Base.{
  ℕ, ◌+◌, Bool, true, false, not, ◌&&◌, ◌||◌, List, [], ◌∷◌, ◌++◌, Option, none, some, leb, ◌==◌,
  if◌then◌else◌, is_some, unwrap_or, or_else, saturating_inc, u8_max, u64_max,
}
use flyingsquirrel.Base.Floats.{Floats, nought}
use flyingsquirrel.Types.{
  NavStateKind, normal, suspicious, spoofed, is_normal, is_suspicious, is_spoofed,
}
use flyingsquirrel.Detect.Config.{DetectConfig}
use flyingsquirrel.Detect.Residual.{Residual}
use flyingsquirrel.Detect.Jump.{JumpDetector, JumpReason}
use flyingsquirrel.Detect.Jump
use flyingsquirrel.Detect.Drift.{DriftDetector, DriftReason}
use flyingsquirrel.Detect.Drift

pub data Event : Type 0 where
  jump : JumpReason → Event
  drift : DriftReason → Event
  transition : NavStateKind → NavStateKind → Event

abbrev pub max_consecutive_dropout : ℕ
max_consecutive_dropout = 5

abbrev pub jump_events : Option JumpReason → List Event
jump_events none = []
jump_events (some j) = jump j ∷ []

abbrev pub drift_events : Option DriftReason → List Event
drift_events none = []
drift_events (some x) = drift x ∷ []

module _ (F : Floats) where
  open F use {F32, F64, f32, f64, narrow, widen}

  pub record StateMachine : Type 0 where
    pub cfg : DetectConfig F
    pub state : NavStateKind
    pub jump_detector : JumpDetector F
    pub drift_detector : DriftDetector F
    pub suspicious_since : Option F64
    pub last_clean_since : Option F64
    pub dropout_recovery : Bool
    pub external_anomaly : Bool
    pub last_dropout_t : Option F64
    pub dropout_recovery_count : ℕ
    pub consecutive_dropout : ℕ
    pub paused_cumulative_s : F64
    pub pause_budget_warned : Bool
    pub dwell_pause_exceeded_pending : Bool
    pub pos_detectors_enabled : Bool

  unfoldable pub new : DetectConfig F → StateMachine
  new cfg = record {
    cfg = cfg;
    state = normal;
    jump_detector = Jump.new F cfg;
    drift_detector = Drift.new F cfg;
    suspicious_since = none;
    last_clean_since = none;
    dropout_recovery = false;
    external_anomaly = false;
    last_dropout_t = none;
    dropout_recovery_count = 0;
    consecutive_dropout = 0;
    paused_cumulative_s = nought f64;
    pause_budget_warned = false;
    dwell_pause_exceeded_pending = false;
    pos_detectors_enabled = true;
  }

  abbrev reset_detectors : StateMachine → StateMachine
  reset_detectors m = record m {
    drift_detector = Drift.reset F m.drift_detector;
    jump_detector = Jump.reset F m.jump_detector;
  }

  unfoldable pub set_pos_detectors_enabled : StateMachine → Bool → StateMachine
  set_pos_detectors_enabled m on =
      let m' = if not on && m.pos_detectors_enabled then reset_detectors m else m in
      record m' { pos_detectors_enabled = on }

  unfoldable pub note_dropout_recovery : StateMachine → StateMachine
  note_dropout_recovery m = record m { dropout_recovery = true }

  unfoldable pub note_external_anomaly : StateMachine → StateMachine
  note_external_anomaly m = record m { external_anomaly = true }

  -- The body of `if let Some(susp_t) = self.suspicious_since` in the dropout branch: the dwell's
  -- start moves forward by the time since the last dropout fix.
  unfoldable pub absorb_pause : StateMachine → F64 → Option F64 → StateMachine
  absorb_pause m t none = m
  absorb_pause m t (some susp_t) =
      let prev_t = unwrap_or m.last_dropout_t susp_t in
      let elapsed = f64.max (f64.sub t prev_t) (nought f64) in
      record m {
        suspicious_since = some (f64.add susp_t elapsed);
        paused_cumulative_s = f64.add m.paused_cumulative_s elapsed;
      }

  unfoldable pub budget_ok : StateMachine → Bool
  budget_ok m = f64.lt m.paused_cumulative_s (widen m.cfg.max_dwell_pause_s)

  -- The two caps on the pause, for the streak that includes the present fix.
  unfoldable pub may_pause : StateMachine → Bool
  unfolding budget_ok
  may_pause m = leb m.consecutive_dropout max_consecutive_dropout && budget_ok m

  unfoldable pub must_warn : StateMachine → Bool
  unfolding budget_ok
  must_warn m =
      is_suspicious m.state
      && (m.consecutive_dropout == max_consecutive_dropout + 1
          || not (budget_ok m) && not m.pause_budget_warned)

  abbrev pub count_dropout : StateMachine → StateMachine
  count_dropout m = record m {
    dropout_recovery_count = saturating_inc u64_max m.dropout_recovery_count;
    consecutive_dropout = saturating_inc u8_max m.consecutive_dropout;
  }

  -- The dropout branch, behind the two counters.
  unfoldable pub pause_counted : StateMachine → F64 → StateMachine
  pause_counted m t =
      if may_pause m
      then if is_suspicious m.state then absorb_pause m t m.suspicious_since else m
      else if must_warn m
      then record m {
        pause_budget_warned = if budget_ok m then m.pause_budget_warned else true;
        dwell_pause_exceeded_pending = true;
      }
      else m

  -- The dropout bookkeeping of `evaluate`, on both branches of `if in_dropout_recovery`.
  unfoldable pub book_dropout : StateMachine → Bool → F64 → StateMachine
  book_dropout m in_recovery t =
      if in_recovery
      then record (pause_counted (count_dropout m) t) { last_dropout_t = some t }
      else record m { last_dropout_t = none; consecutive_dropout = 0 }

  pub record Detection : Type 0 where
    pub jump_detector : JumpDetector F
    pub drift_detector : DriftDetector F
    pub jumped : Option JumpReason
    pub drifted : Option DriftReason

  -- Both detectors on one fix, or neither while they are disabled.
  unfoldable pub run_detectors : StateMachine → Residual F → Option F32 → Option ℕ → Detection
  run_detectors m r hdop sats =
      let j = Jump.evaluate F m.jump_detector r hdop sats in
      let d = Drift.evaluate F m.drift_detector r hdop sats in
      if m.pos_detectors_enabled
      then record { jump_detector = j.0; drift_detector = d.0; jumped = j.1; drifted = d.1 }
      else record {
        jump_detector = m.jump_detector;
        drift_detector = m.drift_detector;
        jumped = none;
        drifted = none;
      }

  unfoldable pub detector_firing : Detection → Bool → Bool
  detector_firing x external = is_some x.jumped || is_some x.drifted || external

  -- The largest of the five position sums; the velocity-aiding sum is not among them.
  unfoldable pub cusum_peak : DriftDetector F → F32
  cusum_peak m =
      let st = m.state in
      f32.max (f32.max (f32.max (f32.max st.s_pos_n st.s_neg_n) st.s_pos_e) st.s_neg_e) st.s_mag

  unfoldable pub pos_thresh : DetectConfig F → DriftDetector F → Residual F → F32
  pos_thresh cfg drifts r =
      f32.max (if r.dvel_known then cfg.cusum_k_m else f32.mul cfg.cusum_k_m (f32.lit 5 1))
        (f32.mul drifts.mag_noise_ewma (f32.lit 3 0))

  unfoldable pub drift_quiescent : DetectConfig F → DriftDetector F → Bool
  drift_quiescent cfg drifts = f32.lt (cusum_peak drifts) (f32.mul cfg.cusum_h_m (f32.lit 25 2))

  unfoldable pub sample_clean : DetectConfig F → DriftDetector F → Residual F → Bool → Bool
  sample_clean cfg drifts r firing =
      f32.lt (narrow r.mag_pos) (pos_thresh cfg drifts r)
      && (not r.dvel_known
          || f32.lt (narrow r.mag_vel) (f32.mul cfg.max_velocity_mismatch_mps (f32.lit 25 2)))
      && drift_quiescent cfg drifts
      && not firing

  -- The `Normal` arm of the `match`.
  unfoldable pub from_normal : StateMachine → Bool → F64 → StateMachine × List Event
  from_normal m firing t =
      if firing
      then (
        record m {
          suspicious_since = some t;
          last_clean_since = none;
          paused_cumulative_s = nought f64;
          pause_budget_warned = false;
          state = suspicious;
        },
        transition normal suspicious ∷ [],
      )
      else (m, [])

  -- The `Suspicious` arm.
  unfoldable pub from_suspicious : StateMachine → Bool → Bool → F64 → StateMachine × List Event
  from_suspicious m firing clean t =
      let entered = unwrap_or m.suspicious_since t in
      let clean_since = unwrap_or m.last_clean_since t in
      if clean
      then if f64.le (widen m.cfg.normal_clear_dwell_s) (f64.sub t clean_since)
        then (
          record m { state = normal; suspicious_since = none; last_clean_since = none },
          transition suspicious normal ∷ [],
        )
        else (record m { last_clean_since = some clean_since }, [])
      else if firing
      then if f64.le (widen m.cfg.suspicious_to_spoofed_dwell_s) (f64.sub t entered)
        then (
          record m { last_clean_since = none; state = spoofed; suspicious_since = none },
          transition suspicious spoofed ∷ [],
        )
        else (record m { last_clean_since = none }, [])
      else (record m { last_clean_since = none }, [])

  -- The `match` on the state. The last arm is `unreachable!()`: `evaluate` returns before it.
  unfoldable pub settle :
      NavStateKind → StateMachine → Bool → Bool → F64 → StateMachine × List Event
  settle normal m firing clean t = from_normal m firing t
  settle suspicious m firing clean t = from_suspicious m firing clean t
  settle spoofed m firing clean t = (m, [])

  abbrev pub drain_flags : StateMachine → StateMachine
  drain_flags m = record m { dropout_recovery = false; external_anomaly = false }

  abbrev pub install : StateMachine → Detection → StateMachine
  install m x = record m { jump_detector = x.jump_detector; drift_detector = x.drift_detector }

  -- What follows the bookkeeping: the detectors, the two verdicts, and the `match`.
  unfoldable pub judge :
      StateMachine → Bool → Residual F → F64 → Option F32 → Option ℕ → StateMachine × List Event
  judge m external r t hdop sats =
      let x = run_detectors m r hdop sats in
      let firing = detector_firing x external in
      let clean = sample_clean m.cfg x.drift_detector r firing in
      let (m', moves) = settle m.state (install m x) firing clean t in
      (m', jump_events x.jumped ++ (drift_events x.drifted ++ moves))

  unfoldable pub evaluate :
      StateMachine → Residual F → F64 → Option F32 → Option ℕ → StateMachine × List Event
  evaluate m r t hdop sats =
      if is_spoofed m.state
      then (drain_flags m, [])
      else judge (book_dropout (drain_flags m) m.dropout_recovery t) m.external_anomaly r t hdop
          sats

  unfoldable pub manual_reset_to_normal : StateMachine → StateMachine
  manual_reset_to_normal m = record (reset_detectors m) {
    state = normal;
    suspicious_since = none;
    last_clean_since = none;
    dropout_recovery = false;
    external_anomaly = false;
    consecutive_dropout = 0;
    paused_cumulative_s = nought f64;
    pause_budget_warned = false;
    dwell_pause_exceeded_pending = false;
    last_dropout_t = none;
  }

  unfoldable pub force_back_to_suspicious : StateMachine → F64 → Option F64 → StateMachine
  force_back_to_suspicious m t original =
      if is_normal m.state
      then record m {
        state = suspicious;
        suspicious_since = or_else original (some t);
        last_clean_since = none;
      }
      else m

  unfoldable pub commit_susp_to_normal : StateMachine → StateMachine
  commit_susp_to_normal m = record (reset_detectors m) {
    paused_cumulative_s = nought f64;
    pause_budget_warned = false;
  }

  unfoldable pub on_clean_anchor : StateMachine → StateMachine
  on_clean_anchor m =
      if is_normal m.state then record m { drift_detector = Drift.reset F m.drift_detector } else m
