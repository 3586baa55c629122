-- ===== src/Fusion/Gps/Actions.antt =====
-- src/fusion.rs: when a fix makes the task act on the autopilot, and in which order.
use flyingsquirrel.Base.{
  ◌≡◌, refl, ◌∙◌, inl, inr, Bool, false, not, ◌&&◌, List, [], ◌∷◌, Option, none, some, Bool-cases,
  if◌then◌else◌, arith,
}
use mathlib.Core.Path.{sym}
use flyingsquirrel.Base.Floats.{Floats}
use flyingsquirrel.Types.{GpsFix, NedPos, NedVel, is_spoofed}
use flyingsquirrel.Detect.StateMachine.{
  note_dropout_recovery, note_external_anomaly, on_clean_anchor,
}
use flyingsquirrel.Detect.Residual.{Residual, Result, ok, err, interpolate}
use flyingsquirrel.Nav.Reckoner.{Reckoner}
use flyingsquirrel.Fusion.Task.{
  Fusion, World, Effect, severs_gps, engages_rtb, verifies_sever, verifies_rtb, refresh_preflight,
  is_ready,
}
use flyingsquirrel.Fusion.Anomalies.{
  gap_since, frozen_candidate, note_gap, warn_pause, restart_streak, frozen_decision,
  vertical_check, count_doppler,
}
use flyingsquirrel.Fusion.Verdict.{decide}
use flyingsquirrel.Fusion.Gps.{first_fix, gated_fix, forward, assess, align, track, route, on_gps}
use flyingsquirrel.Fusion.Gps.Events.{
  actions, due, due_same, due_step, quiet_append, Quiet, decide-due,
}

module _ (F : Floats) (N : Reckoner F) where
  open F use {F32, F64}

  note_gap-state :
      (s : Fusion F N) (t : F64) (gap : F32) → (note_gap F N s t gap).fsm.state ≡ s.fsm.state
  unfolding note_gap note_dropout_recovery
  note_gap-state s t gap = ground arith

  warn_pause-Quiet : (s : Fusion F N) (fix : GpsFix F) → Quiet F N s (warn_pause F N s fix)
  unfolding warn_pause
  warn_pause-Quiet s fix = ground arith

  restart_streak-state :
      (s : Fusion F N) (fix : GpsFix F) (candidate : Bool)
      → (restart_streak F N s fix candidate).fsm.state ≡ s.fsm.state
  unfolding restart_streak
  restart_streak-state s fix candidate = ground arith

  frozen_decision-Quiet :
      (s : Fusion F N) (fix : GpsFix F) (r : Residual F) (v : NedVel F) (candidate : Bool)
      (gap : F32)
      → Quiet F N s (frozen_decision F N s fix r v candidate gap)
  unfolding frozen_decision note_external_anomaly
  frozen_decision-Quiet s fix r v candidate gap = ground arith

  vertical_check-Quiet :
      (s : Fusion F N) (fix : GpsFix F) (r : Residual F) (t : F64)
      → Quiet F N s (vertical_check F N s fix r t)
  unfolding vertical_check note_external_anomaly
  vertical_check-Quiet s fix r t = ground arith

  count_doppler-Quiet :
      (s : Fusion F N) (fix : GpsFix F) (r : Residual F) → Quiet F N s (count_doppler F N s fix r)
  unfolding count_doppler
  count_doppler-Quiet s fix r = ground arith

  forward-state : (s : Fusion F N) (fix : GpsFix F) → (forward F N s fix).fsm.state ≡ s.fsm.state
  unfolding forward
  forward-state s fix = ground arith

  refresh_preflight-Quiet :
      (s : Fusion F N) (w : World F N) (fix : GpsFix F)
      → Quiet F N s (refresh_preflight F N s w fix)
  unfolding refresh_preflight
  refresh_preflight-Quiet s w fix = ground arith

  first_fix-Quiet :
      (s : Fusion F N) (w : World F N) (fix : GpsFix F) (check : Option F64)
      → Quiet F N s (first_fix F N s w fix check)
  unfolding first_fix
  first_fix-Quiet s w fix (some d) = (refl, refl)
  first_fix-Quiet s w fix none = refresh_preflight-Quiet _ w fix

  gated_fix-Quiet :
      (s : Fusion F N) (w : World F N) (fix : GpsFix F) → Quiet F N s (gated_fix F N s w fix)
  unfolding gated_fix on_clean_anchor
  gated_fix-Quiet s w fix = ground (arith, refresh_preflight-Quiet s w fix)

  -- The effects of a stage or of all of them are what is due for the state's change.
  abbrev Due : Fusion F N → Fusion F N × List (Effect F N) → Type 0
  Due s (k, es) = actions F N es ≡ due F N s.fsm.state k.fsm.state

  Quiet-Due : (s : Fusion F N) (out : Fusion F N × List (Effect F N)) → Quiet F N s out → Due s out
  Quiet-Due s (k, es) (same, none_of) = none_of ∙ rw (same, due_same F N s.fsm.state) refl

  assess-Due :
      (s : Fusion F N) (w : World F N) (fix : GpsFix F) (r : Residual F) (gps_ned : NedPos F)
      (v : NedVel F) (candidate : Bool) (gap : F32)
      → Due s (assess F N s w fix r gps_ned v candidate gap)
  unfolding assess
  assess-Due s w fix r gps_ned v candidate gap =
      let x1 = frozen_decision F N s fix r v candidate gap in
      let x2 = vertical_check F N x1.0 fix r (F.secs fix.mono_ns) in
      let x3 = count_doppler F N x2.0 fix r in
      let x4 = decide F N x3.0 w fix r gps_ned in
      let q1 = frozen_decision-Quiet s fix r v candidate gap in
      let q2 = vertical_check-Quiet x1.0 fix r (F.secs fix.mono_ns) in
      let q3 = count_doppler-Quiet x2.0 fix r in
      quiet_append F N x1.1 _ q1.1
      ∙ (quiet_append F N x2.1 _ q2.1
          ∙ (quiet_append F N x3.1 _ q3.1
              ∙ due_step F N _ (q3.0 ∙ (q2.0 ∙ q1.0)) (forward-state x4.0 fix)
                  (decide-due F N x3.0 w fix r gps_ned)))

  align-Due :
      (s : Fusion F N) (w : World F N) (fix : GpsFix F) (gps_ned : NedPos F) (candidate : Bool)
      (gap : F32) (found : Result (NedPos F × NedVel F))
      → Due s (align F N s w fix gps_ned candidate gap found)
  unfolding align
  align-Due s w fix gps_ned candidate gap (err e) = sym (due_same F N s.fsm.state)
  align-Due s w fix gps_ned candidate gap (ok (p, v)) = assess-Due s w fix _ gps_ned v candidate gap

  track-Due :
      (s : Fusion F N) (w : World F N) (fix : GpsFix F) (gps_ned : NedPos F)
      → Due s (track F N s w fix gps_ned)
  unfolding track
  track-Due s w fix gps_ned =
      let t = F.secs fix.mono_ns in
      let gap = gap_since F N s.last_gps_t_secs t in
      let s0 = note_gap F N s t gap in
      let x1 = warn_pause F N s0 fix in
      let q1 = warn_pause-Quiet s0 fix in
      let candidate = frozen_candidate F N x1.0.frozen_anchor_lla fix in
      let s2 = restart_streak F N x1.0 fix candidate in
      let found = interpolate F s2.buffer t in
      let out = align F N s2 w fix gps_ned candidate gap found in
      quiet_append F N x1.1 _ q1.1
      ∙ due_step F N _ {b = out.0.fsm.state}
          (restart_streak-state x1.0 fix candidate ∙ (q1.0 ∙ note_gap-state s t gap)) refl
          (align-Due s2 w fix gps_ned candidate gap found)

  route-Due :
      (s : Fusion F N) (w : World F N) (fix : GpsFix F) (gps_ned : Option (NedPos F))
      → Due s (route F N s w fix gps_ned)
  unfolding route
  route-Due s w fix none =
      let check = N.is_first_fix_plausible s.nav fix in
      Quiet-Due s (first_fix F N s w fix check) (first_fix-Quiet s w fix check)
  route-Due s w fix (some gps_ned) = elim (Bool-cases (is_ready s.preflight)) [
    | inl c ↦ rw (c, if◌then◌else◌) (track-Due s w fix gps_ned)
    | inr c ↦ rw (c, if◌then◌else◌) (Quiet-Due s (gated_fix F N s w fix) (gated_fix-Quiet s w fix))
  ]

  unready_route :
      (s : Fusion F N) (w : World F N) (fix : GpsFix F) (gps_ned : Option (NedPos F))
      → is_ready s.preflight ≡ false
      → Quiet F N s (route F N s w fix gps_ned)
  unfolding route
  unready_route s w fix none e = first_fix-Quiet s w fix _
  unready_route s w fix (some gps_ned) e = rw (e, if◌then◌else◌) (gated_fix-Quiet s w fix)

  -- The task acts on the autopilot exactly when a fix takes the state machine into Spoofed, and then it
  -- severs GPS first, engages RTL next whether or not the sever was sent, and spawns both
  -- read-backs. No other fix does any of these, whatever the clock, the monitor, the dump's slot
  -- and the controller's outcomes are.
  pub actions-on_gps :
      (s : Fusion F N) (w : World F N) (fix : GpsFix F)
      → let (k, es) = on_gps F N s w fix in
        actions F N es ≡ (
          if not (is_spoofed s.fsm.state) && is_spoofed k.fsm.state
          then severs_gps ∷ engages_rtb ∷ verifies_sever ∷ verifies_rtb ∷ []
          else [])
  unfolding on_gps
  actions-on_gps s w fix = route-Due s w fix (N.gps_in_ned s.nav fix)

  -- Before the pre-flight gate opens the task is inert: whatever a fix claims, the state machine stays in
  -- its state and nothing reaches the autopilot.
  pub unready_inert :
      (s : Fusion F N) (w : World F N) (fix : GpsFix F)
      → is_ready s.preflight ≡ false
      → ((on_gps F N s w fix).0.fsm.state ≡ s.fsm.state) × (actions F N (on_gps F N s w fix).1 ≡ [])
  unfolding on_gps
  unready_inert s w fix e = unready_route s w fix (N.gps_in_ned s.nav fix) e
