-- ===== src/Fusion/Gps.antt =====
-- src/fusion.rs: `on_gps`, whose stages are those of Anomalies and Verdict in the code's order.
pub mod Latch
pub mod Events
pub mod Actions
pub mod Veto
use flyingsquirrel.Base.{
  ℕ, Bool, true, false, not, ◌&&◌, ◌||◌, List, [], ◌∷◌, ◌++◌, Option, none, some, ltb, ◌==◌,
  if◌then◌else◌, saturating_inc, u8_max, u16_max,
}
use flyingsquirrel.Base.Floats.{Floats, nought, clamp}
use flyingsquirrel.Types.{
  GpsFix, NedPos, NedVel, NavStateKind, horizontal_norm, normal, suspicious, spoofed, is_normal,
  SpoofKind, state_transition, sync_warning, action_failed, boot_anchor_rejected,
  dwell_pause_exceeded, frozen_gps, forensic_dump_suppressed,
}
use flyingsquirrel.Types
use flyingsquirrel.Detect.StateMachine.{
  StateMachine, Event, jump, drift, transition, evaluate, note_dropout_recovery,
  note_external_anomaly, on_clean_anchor, set_pos_detectors_enabled, force_back_to_suspicious,
  commit_susp_to_normal,
}
use flyingsquirrel.Detect.Residual.{Residual, ResidualBuffer, Result, ok, err, interpolate, clear}
use flyingsquirrel.Nav.Reckoner.{Reckoner}
use flyingsquirrel.Nav.Frame.{lla_to_ned, validate_fix_against_reference, gps_velocity}
use flyingsquirrel.Fusion.Residuals.{residual_of}
use flyingsquirrel.Fusion.Task.{
  Fusion, World, Effect, event, severs_gps, engages_rtb, verifies_sever, verifies_rtb, dumps,
  event_at, is_ready, refresh_preflight,
}
use flyingsquirrel.Fusion.Anomalies.{
  gap_since, note_gap, warn_pause, frozen_candidate, restart_streak, frozen_decision,
  vertical_check, count_doppler,
}
use flyingsquirrel.Fusion.Verdict.{decide}

abbrev pub is_err {ℓ} : {A : Type ℓ} → Result A → Bool
is_err (ok _) = false
is_err (err _) = true

module _ (F : Floats) (N : Reckoner F) where
  open F use {F32, F64, f32, f64, narrow, widen, secs}

  -- The first fix: refused if the check found it implausible by a distance, else the anchor.
  unfoldable pub first_fix :
      Fusion F N → World F N → GpsFix F → Option F64 → Fusion F N × List (Effect F N)
  first_fix s w fix (some distance) =
      (s, event_at F N s fix.mono_ns boot_anchor_rejected (narrow distance) ∷ [])
  first_fix s w fix none =
      refresh_preflight F N
        (record s {
          nav = N.on_gps_fix s.nav fix;
          checklist = record s.checklist { first_fix_accepted = true };
        })
        w fix

  -- A fix before the pre-flight gate opens.
  unfoldable pub gated_fix : Fusion F N → World F N → GpsFix F → Fusion F N × List (Effect F N)
  gated_fix s w fix =
      let (k, es) = refresh_preflight F N s w fix in
      (
        if is_err (interpolate F k.buffer (secs fix.mono_ns))
            then record k { nav = N.on_gps_fix k.nav fix; fsm = on_clean_anchor F k.fsm }
            else k,
        es,
      )

  -- The last step: nav follows the fix only in Normal.
  unfoldable pub forward : Fusion F N → GpsFix F → Fusion F N
  forward s fix = if is_normal s.fsm.state then record s { nav = N.on_gps_fix s.nav fix } else s

  -- From the residual on.
  unfoldable pub assess :
      Fusion F N
      → World F N
      → GpsFix F
      → Residual F
      → NedPos F
      → NedVel F
      → Bool
      → F32
      → Fusion F N × List (Effect F N)
  assess s w fix r gps_ned v_imu candidate gap =
      let (s1, e1) = frozen_decision F N s fix r v_imu candidate gap in
      let (s2, e2) = vertical_check F N s1 fix r (secs fix.mono_ns) in
      let (s3, e3) = count_doppler F N s2 fix r in
      let (s4, e4) = decide F N s3 w fix r gps_ned in (forward s4 fix, e1 ++ (e2 ++ (e3 ++ e4)))

  -- Behind the gate, with the dead-reckoned state at the fix's time if the buffer has it.
  unfoldable pub align :
      Fusion F N
      → World F N
      → GpsFix F
      → NedPos F
      → Bool
      → F32
      → Result (NedPos F × NedVel F)
      → Fusion F N × List (Effect F N)
  align s w fix gps_ned candidate gap (err e) = (
    record s { nav = N.on_gps_fix s.nav fix },
    event_at F N s fix.mono_ns sync_warning (nought f32) ∷ [],
  )
  align s w fix gps_ned candidate gap (ok (p_imu, v_imu)) =
      let v_gps = gps_velocity F fix.speed_mps fix.course_deg in
      let r =
        residual_of F gps_ned v_gps p_imu v_imu (N.aiding_vel s.nav) (N.is_maneuvering s.nav) in
      assess s w fix r gps_ned v_imu candidate gap

  unfoldable pub track :
      Fusion F N → World F N → GpsFix F → NedPos F → Fusion F N × List (Effect F N)
  track s w fix gps_ned =
      let t = secs fix.mono_ns in
      let gap = gap_since F N s.last_gps_t_secs t in
      let (s1, e1) = warn_pause F N (note_gap F N s t gap) fix in
      let candidate = frozen_candidate F N s1.frozen_anchor_lla fix in
      let s2 = restart_streak F N s1 fix candidate in
      let (s3, e3) = align s2 w fix gps_ned candidate gap (interpolate F s2.buffer t) in
      (s3, e1 ++ e3)

  -- A fix with its position in the anchor's frame, if there is an anchor.
  unfoldable pub route :
      Fusion F N → World F N → GpsFix F → Option (NedPos F) → Fusion F N × List (Effect F N)
  route s w fix none = first_fix s w fix (N.is_first_fix_plausible s.nav fix)
  route s w fix (some gps_ned) =
      if is_ready s.preflight then track s w fix gps_ned else gated_fix s w fix

  unfoldable pub on_gps : Fusion F N → World F N → GpsFix F → Fusion F N × List (Effect F N)
  on_gps s w fix = route s w fix (N.gps_in_ned s.nav fix)
