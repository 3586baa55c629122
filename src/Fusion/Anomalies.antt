-- ===== src/Fusion/Anomalies.antt =====
-- src/fusion.rs: the stages of `on_gps` around the residual that note something with the state machine:
-- the GPS gap, the frozen fix, the vertical rate and the missing Doppler.
use flyingsquirrel.Base.{
  Bool, false, not, ◌&&◌, List, [], ◌∷◌, Option, none, some, ◌==◌, if◌then◌else◌, saturating_inc,
  u8_max, u16_max,
}
use flyingsquirrel.Base.Floats.{Floats, nought, clamp}
use flyingsquirrel.Types.{
  GpsFix, NedPos, NedVel, NavStateKind, horizontal_norm, normal, suspicious, spoofed, is_normal,
  SpoofKind, state_transition, sync_warning, action_failed, boot_anchor_rejected,
  dwell_pause_exceeded, frozen_gps, forensic_dump_suppressed,
}
use flyingsquirrel.Types
use flyingsquirrel.Detect.StateMachine.{note_dropout_recovery, note_external_anomaly}
use flyingsquirrel.Detect.Residual.{Residual}
use flyingsquirrel.Nav.Reckoner.{Reckoner}
use flyingsquirrel.Nav.Frame.{lla_to_ned}
use flyingsquirrel.Fusion.Task.{Fusion, Effect, event_at}

module _ (F : Floats) (N : Reckoner F) where
  open F use {F32, F64, f32, f64, narrow, widen, secs}

  abbrev pub gap_since : Option F64 → F64 → F32
  gap_since none t = nought f32
  gap_since (some prev) t = narrow (f64.sub t prev)

  unfoldable pub note_gap : Fusion F N → F64 → F32 → Fusion F N
  note_gap s t gap = record s {
    last_gps_t_secs = some t;
    fsm = if f32.lt s.gps_dropout_freeze_s gap then note_dropout_recovery F s.fsm else s.fsm;
  }

  unfoldable pub warn_pause : Fusion F N → GpsFix F → Fusion F N × List (Effect F N)
  warn_pause s fix =
      if s.fsm.dwell_pause_exceeded_pending
      then (
        record s { fsm = record s.fsm { dwell_pause_exceeded_pending = false } },
        event_at F N s fix.mono_ns dwell_pause_exceeded (nought f32) ∷ [],
      )
      else (s, [])

  -- Whether the fix is within half a metre of the streak's anchor.
  unfoldable pub frozen_candidate : Option (F64 × F64) → GpsFix F → Bool
  frozen_candidate none fix = false
  frozen_candidate (some (lat, lon)) fix =
      let ned = lla_to_ned F fix.lat_deg fix.lon_deg (nought f64) lat lon in
      f64.lt (horizontal_norm F ned.n ned.e) (f64.lit 5 1)

  unfoldable pub restart_streak : Fusion F N → GpsFix F → Bool → Fusion F N
  restart_streak s fix candidate = if candidate then s else record s {
    frozen_anchor_lla = some (fix.lat_deg, fix.lon_deg);
    frozen_fix_streak = 0;
    frozen_imu_displacement_m = nought f64;
  }

  -- The displacement behind a fix of the streak. `f64::clamp` wants an ordered pair of bounds.
  unfoldable pub accrue : Fusion F N → F64 → F32 → F64
  accrue s v_h gap =
      if f64.lt (f64.lit 1 0) v_h
      then f64.add s.frozen_imu_displacement_m
          (f64.mul v_h (clamp f64 (widen gap) (nought f64) (widen s.gps_dropout_freeze_s)))
      else s.frozen_imu_displacement_m

  unfoldable pub frozen_decision :
      Fusion F N → GpsFix F → Residual F → NedVel F → Bool → F32 → Fusion F N × List (Effect F N)
  frozen_decision s fix r v_imu candidate gap =
      let moved = accrue s (horizontal_norm F v_imu.n v_imu.e) gap in
      let k = record s {
        frozen_fix_streak = saturating_inc u8_max s.frozen_fix_streak;
        frozen_imu_displacement_m = moved;
      } in
      if not candidate
      then (s, [])
      else if f64.le (f64.lit 5 0) moved
      then (
        record k { fsm = note_external_anomaly F k.fsm },
        event_at F N k fix.mono_ns frozen_gps (narrow r.mag_pos) ∷ [],
      )
      else (k, [])

  -- Whether the altitude changed faster than it can over an ordinary interval.
  unfoldable pub climbs_too_fast : Fusion F N → F64 → F64 → Option (F64 × F64) → Bool
  climbs_too_fast s alt t none = false
  climbs_too_fast s alt t (some (prev_alt, prev_t)) =
      let dt = narrow (f64.sub t prev_t) in
      f32.lt (f32.lit 1 3) dt
      && f32.le dt s.gps_dropout_freeze_s
      && f32.lt s.max_vertical_rate_mps (f32.div (narrow (f64.abs (f64.sub alt prev_alt))) dt)

  unfoldable pub vertical_check :
      Fusion F N → GpsFix F → Residual F → F64 → Fusion F N × List (Effect F N)
  vertical_check s fix r t =
      let k = record s { last_gps_alt = some (fix.alt_m, t) } in
      if climbs_too_fast s fix.alt_m t s.last_gps_alt
      then (
        record k { fsm = note_external_anomaly F k.fsm },
        event_at F N k fix.mono_ns Types.jump (narrow r.mag_pos) ∷ [],
      )
      else (k, [])

  unfoldable pub count_doppler : Fusion F N → GpsFix F → Residual F → Fusion F N × List (Effect F N)
  count_doppler s fix r =
      let streak = saturating_inc u16_max s.no_doppler_streak in
      if r.dvel_known then (record s { no_doppler_streak = 0 }, []) else (
        record s { no_doppler_streak = streak },
        if streak == 10
            then event_at F N s fix.mono_ns sync_warning (narrow r.mag_pos) ∷ []
            else [],
      )
