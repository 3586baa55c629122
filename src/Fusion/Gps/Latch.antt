-- ===== src/Fusion/Gps/Latch.antt =====
-- src/fusion.rs: what the task does to the state machine is a sequence of the calls that keep the latch.
use flyingsquirrel.Base.{
  ◌≡◌, refl, inl, inr, Bool, true, false, List, [], ◌∷◌, Option, none, some, Bool-cases,
  if◌then◌else◌, arith,
}
use mathlib.Core.Path.{subst, sym}
use flyingsquirrel.Base.Floats.{Floats}
use flyingsquirrel.Types.{
  horizontal_norm, GpsFix, NedPos, NedVel, NavStateKind, normal, suspicious, spoofed,
}
use flyingsquirrel.Detect.StateMachine.{StateMachine, Event, jump, drift, transition}
use flyingsquirrel.Detect.StateMachine.Invariant.{
  evaluates, sets_enabled, notes_dropout, notes_anomaly, forces_back, commits, anchors,
  consumes_warning, Calls, done, more,
}
use flyingsquirrel.Detect.StateMachine.Transitions.{spoofed_latched}
use flyingsquirrel.Detect.Residual.{Residual, Result, ok, err, interpolate}
use flyingsquirrel.Nav.Reckoner.{Reckoner, ImuSample}
use flyingsquirrel.Fusion.Task.{Fusion, World, on_imu, refresh_preflight, is_ready}
use flyingsquirrel.Fusion.Anomalies.{
  gap_since, frozen_candidate, note_gap, warn_pause, restart_streak, frozen_decision,
  climbs_too_fast, accrue, vertical_check, count_doppler,
}
use flyingsquirrel.Fusion.Verdict.{
  on_clear, on_event, on_events, on_transition, veto_clear, accept_clear, decide,
}
use flyingsquirrel.Fusion.Gps.{
  is_err, first_fix, gated_fix, forward, assess, align, track, route, on_gps,
}

module _ (F : Floats) (N : Reckoner F) where
  open F use {F32, F64}

  subst2-Calls : {a b c d : StateMachine F} → a ≡ b → d ≡ c → Calls F a c → Calls F b d
  subst2-Calls {a} {b} {c} {d} p q x =
      subst (λ y. Calls F y d) p (subst (λ y. Calls F a y) (sym q) x)

  Calls-trans : {a b c : StateMachine F} → Calls F a b → Calls F b c → Calls F a c
  Calls-trans p done = p
  Calls-trans p (more q c) = more (Calls-trans p q) c

  on_clear-Calls :
      (s : Fusion F N) (fix : GpsFix F) (r : Residual F) (since check : Option F64)
      → Calls F s.fsm (on_clear F N s fix r since check).0.fsm
  unfolding on_clear veto_clear accept_clear
  on_clear-Calls s fix r since (some d) = more done (forces_back _ since)
  on_clear-Calls s fix r since none = more done commits

  on_transition-Calls :
      (s : Fusion F N) (w : World F N) (fix : GpsFix F) (r : Residual F) (gps_ned : NedPos F)
      (since : Option F64) (from to : NavStateKind)
      → Calls F s.fsm (on_transition F N s w fix r gps_ned since from to).0.fsm
  unfolding on_transition
  on_transition-Calls s w fix r gps_ned since suspicious normal = on_clear-Calls s fix r since _
  on_transition-Calls s w fix r gps_ned since normal normal = done
  on_transition-Calls s w fix r gps_ned since spoofed normal = done
  on_transition-Calls s w fix r gps_ned since normal suspicious = done
  on_transition-Calls s w fix r gps_ned since suspicious suspicious = done
  on_transition-Calls s w fix r gps_ned since spoofed suspicious = done
  on_transition-Calls s w fix r gps_ned since normal spoofed = done
  on_transition-Calls s w fix r gps_ned since suspicious spoofed = done
  on_transition-Calls s w fix r gps_ned since spoofed spoofed = done

  on_events-Calls :
      (s : Fusion F N) (w : World F N) (fix : GpsFix F) (r : Residual F) (gps_ned : NedPos F)
      (since : Option F64) (es : List Event)
      → Calls F s.fsm (on_events F N s w fix r gps_ned since es).0.fsm
  unfolding on_events on_event
  on_events-Calls s w fix r gps_ned since [] = done
  on_events-Calls s w fix r gps_ned since (jump _ ∷ es) = on_events-Calls s w fix r gps_ned since es
  on_events-Calls s w fix r gps_ned since (drift _ ∷ es) =
      on_events-Calls s w fix r gps_ned since es
  on_events-Calls s w fix r gps_ned since (transition from to ∷ es) =
      Calls-trans (on_transition-Calls s w fix r gps_ned since from to) (
        on_events-Calls (on_transition F N s w fix r gps_ned since from to).0 w fix r gps_ned since
          es)

  decide-Calls :
      (s : Fusion F N) (w : World F N) (fix : GpsFix F) (r : Residual F) (gps_ned : NedPos F)
      → Calls F s.fsm (decide F N s w fix r gps_ned).0.fsm
  unfolding decide
  decide-Calls s w fix r gps_ned =
      Calls-trans (more (more done (sets_enabled _)) (evaluates r _ fix.hdop fix.sats))
        (on_events-Calls _ w fix r gps_ned s.fsm.suspicious_since _)

  note_gap-Calls : (s : Fusion F N) (t : F64) (gap : F32) → Calls F s.fsm (note_gap F N s t gap).fsm
  unfolding note_gap
  note_gap-Calls s t gap = elim (Bool-cases (F.f32.lt s.gps_dropout_freeze_s gap)) [
    | inl c ↦ rw (c, if◌then◌else◌) (more done notes_dropout)
    | inr c ↦ rw (c, if◌then◌else◌) done
  ]

  warn_pause-Calls : (s : Fusion F N) (fix : GpsFix F) → Calls F s.fsm (warn_pause F N s fix).0.fsm
  unfolding warn_pause
  warn_pause-Calls s fix = elim (Bool-cases s.fsm.dwell_pause_exceeded_pending) [
    | inl c ↦ rw (c, if◌then◌else◌) (more done consumes_warning)
    | inr c ↦ rw (c, if◌then◌else◌) done
  ]

  restart_streak-fsm :
      (s : Fusion F N) (fix : GpsFix F) (candidate : Bool)
      → (restart_streak F N s fix candidate).fsm ≡ s.fsm
  unfolding restart_streak
  restart_streak-fsm s fix true = refl
  restart_streak-fsm s fix false = refl

  frozen_decision-Calls :
      (s : Fusion F N) (fix : GpsFix F) (r : Residual F) (v : NedVel F) (candidate : Bool)
      (gap : F32)
      → Calls F s.fsm (frozen_decision F N s fix r v candidate gap).0.fsm
  unfolding frozen_decision
  frozen_decision-Calls s fix r v false gap = done
  frozen_decision-Calls s fix r v true gap =
      elim (Bool-cases (F.f64.le (F.f64.lit 5 0) (accrue F N s (horizontal_norm F v.n v.e) gap))) [
        | inl c ↦ rw (c, if◌then◌else◌) (more done notes_anomaly)
        | inr c ↦ rw (c, if◌then◌else◌) done
      ]

  vertical_check-Calls :
      (s : Fusion F N) (fix : GpsFix F) (r : Residual F) (t : F64)
      → Calls F s.fsm (vertical_check F N s fix r t).0.fsm
  unfolding vertical_check
  vertical_check-Calls s fix r t =
      elim (Bool-cases (climbs_too_fast F N s fix.alt_m t s.last_gps_alt)) [
        | inl c ↦ rw (c, if◌then◌else◌) (more done notes_anomaly)
        | inr c ↦ rw (c, if◌then◌else◌) done
      ]

  count_doppler-fsm :
      (s : Fusion F N) (fix : GpsFix F) (r : Residual F) → (count_doppler F N s fix r).0.fsm ≡ s.fsm
  unfolding count_doppler
  count_doppler-fsm s fix r = ground arith

  forward-fsm : (s : Fusion F N) (fix : GpsFix F) → (forward F N s fix).fsm ≡ s.fsm
  unfolding forward
  forward-fsm s fix = ground arith

  assess-Calls :
      (s : Fusion F N) (w : World F N) (fix : GpsFix F) (r : Residual F) (gps_ned : NedPos F)
      (v : NedVel F) (candidate : Bool) (gap : F32)
      → Calls F s.fsm (assess F N s w fix r gps_ned v candidate gap).0.fsm
  unfolding assess
  assess-Calls s w fix r gps_ned v candidate gap =
      let s1 = (frozen_decision F N s fix r v candidate gap).0 in
      let s2 = (vertical_check F N s1 fix r (F.secs fix.mono_ns)).0 in
      let s3 = (count_doppler F N s2 fix r).0 in
      let s4 = (decide F N s3 w fix r gps_ned).0 in
      let on = decide-Calls s3 w fix r gps_ned in
      Calls-trans (frozen_decision-Calls s fix r v candidate gap) (
        Calls-trans (vertical_check-Calls s1 fix r (F.secs fix.mono_ns))
          (subst2-Calls (count_doppler-fsm s2 fix r) (forward-fsm s4 fix) on))

  align-Calls :
      (s : Fusion F N) (w : World F N) (fix : GpsFix F) (gps_ned : NedPos F) (candidate : Bool)
      (gap : F32) (found : Result (NedPos F × NedVel F))
      → Calls F s.fsm (align F N s w fix gps_ned candidate gap found).0.fsm
  unfolding align
  align-Calls s w fix gps_ned candidate gap (err e) = done
  align-Calls s w fix gps_ned candidate gap (ok (p, v)) =
      assess-Calls s w fix _ gps_ned v candidate gap

  track-Calls :
      (s : Fusion F N) (w : World F N) (fix : GpsFix F) (gps_ned : NedPos F)
      → Calls F s.fsm (track F N s w fix gps_ned).0.fsm
  unfolding track
  track-Calls s w fix gps_ned =
      let t = F.secs fix.mono_ns in
      let gap = gap_since F N s.last_gps_t_secs t in
      let s1 = (warn_pause F N (note_gap F N s t gap) fix).0 in
      let candidate = frozen_candidate F N s1.frozen_anchor_lla fix in
      let s2 = restart_streak F N s1 fix candidate in
      let on = align-Calls s2 w fix gps_ned candidate gap (interpolate F s2.buffer t) in
      Calls-trans (note_gap-Calls s t gap) (
        Calls-trans (warn_pause-Calls (note_gap F N s t gap) fix)
          (subst2-Calls (restart_streak-fsm s1 fix candidate) refl on))

  refresh_preflight-fsm :
      (s : Fusion F N) (w : World F N) (fix : GpsFix F)
      → (refresh_preflight F N s w fix).0.fsm ≡ s.fsm
  unfolding refresh_preflight
  refresh_preflight-fsm s w fix = ground arith

  gated_fix-Calls :
      (s : Fusion F N) (w : World F N) (fix : GpsFix F)
      → Calls F s.fsm (gated_fix F N s w fix).0.fsm
  unfolding gated_fix
  gated_fix-Calls s w fix =
      let k = (refresh_preflight F N s w fix).0 in
      let same = refresh_preflight-fsm s w fix in
      elim (Bool-cases (is_err (interpolate F k.buffer (F.secs fix.mono_ns)))) [
        | inl c ↦ rw (c, if◌then◌else◌) (subst2-Calls same refl (more done anchors))
        | inr c ↦ rw (c, if◌then◌else◌) (subst2-Calls same refl done)
      ]

  first_fix-fsm :
      (s : Fusion F N) (w : World F N) (fix : GpsFix F) (check : Option F64)
      → (first_fix F N s w fix check).0.fsm ≡ s.fsm
  unfolding first_fix
  first_fix-fsm s w fix (some d) = refl
  first_fix-fsm s w fix none = refresh_preflight-fsm _ w fix

  route-Calls :
      (s : Fusion F N) (w : World F N) (fix : GpsFix F) (where_it_is : Option (NedPos F))
      → Calls F s.fsm (route F N s w fix where_it_is).0.fsm
  unfolding route
  route-Calls s w fix none = subst2-Calls refl (first_fix-fsm s w fix _) done
  route-Calls s w fix (some gps_ned) = elim (Bool-cases (is_ready s.preflight)) [
    | inl c ↦ rw (c, if◌then◌else◌) (track-Calls s w fix gps_ned)
    | inr c ↦ rw (c, if◌then◌else◌) (gated_fix-Calls s w fix)
  ]

  -- What one fix does to the state machine is a sequence of its calls, none of them an operator's reset.
  pub on_gps-Calls :
      (s : Fusion F N) (w : World F N) (fix : GpsFix F) → Calls F s.fsm (on_gps F N s w fix).0.fsm
  unfolding on_gps
  on_gps-Calls s w fix = route-Calls s w fix (N.gps_in_ned s.nav fix)

  -- What the task's loop takes from its channels, an operator's reset left out.
  pub data Input : Type 0 where
    gps : World F N → GpsFix F → Input
    imu : ImuSample F → Input

  abbrev pub serve : Fusion F N → List Input → Fusion F N
  serve s [] = s
  serve s (gps w fix ∷ xs) = serve (on_gps F N s w fix).0 xs
  serve s (imu sample ∷ xs) = serve (on_imu F N s sample) xs

  -- The task latches too: once its state machine is in Spoofed, no sequence of GPS fixes and IMU
  -- samples leaves it, whatever the clock, the monitor and the controller's outcomes are.
  pub serve-spoofed :
      (s : Fusion F N) (xs : List Input) → s.fsm.state ≡ spoofed → (serve s xs).fsm.state ≡ spoofed
  unfolding on_imu
  serve-spoofed s [] e = e
  serve-spoofed s (gps w fix ∷ xs) e =
      serve-spoofed (on_gps F N s w fix).0 xs (spoofed_latched F (on_gps-Calls s w fix) e)
  serve-spoofed s (imu sample ∷ xs) e = serve-spoofed (on_imu F N s sample) xs e
