-- ===== src/Fusion/Verdict.antt =====
-- src/fusion.rs: the stage of `on_gps` that evaluates the state machine and acts on its events: the veto
-- of a clear, and the actions behind a latch.
use flyingsquirrel.Base.{ℕ, not, ◌||◌, List, [], ◌∷◌, ◌++◌, Option, none, some, ltb, if◌then◌else◌}
use flyingsquirrel.Base.Floats.{Floats, nought}
use flyingsquirrel.Types.{
  GpsFix, NedPos, NedVel, NavStateKind, horizontal_norm, normal, suspicious, spoofed, is_normal,
  SpoofKind, state_transition, sync_warning, action_failed, boot_anchor_rejected,
  dwell_pause_exceeded, frozen_gps, forensic_dump_suppressed,
}
use flyingsquirrel.Types
use flyingsquirrel.Detect.StateMachine.{
  Event, jump, drift, transition, evaluate, set_pos_detectors_enabled, force_back_to_suspicious,
  commit_susp_to_normal,
}
use flyingsquirrel.Detect.Residual.{Residual, clear}
use flyingsquirrel.Nav.Reckoner.{Reckoner}
use flyingsquirrel.Nav.Frame.{validate_fix_against_reference}
use flyingsquirrel.Fusion.Task.{
  Fusion, World, Effect, event, severs_gps, engages_rtb, verifies_sever, verifies_rtb, dumps,
  event_at,
}

abbrev pub no_doppler_gate_streak : ℕ
no_doppler_gate_streak = 10

module _ (F : Floats) (N : Reckoner F) where
  open F use {F32, F64, f32, f64, narrow, widen, secs}

  -- The forensic dump that a latch asks for; the clock of its refusal is the present.
  unfoldable pub dump_effects : Fusion F N → World F N → Residual F → List (Effect F N)
  dump_effects s w r =
      if not s.forensic
      then []
      else if w.dump_claimed
      then event (record {
        mono_ns = w.now_ns;
        kind = forensic_dump_suppressed;
        state = spoofed;
        residual_m = narrow r.mag_pos;
      })
        ∷ []
      else dumps ∷ []

  abbrev pub failed : Fusion F N → GpsFix F → F32 → Effect F N
  failed s fix residual_m = event_at F N s fix.mono_ns action_failed residual_m

  -- What follows the latch: the dump, the sever with a second, critical event if it fails, the RTL
  -- in any case, and the two read-backs.
  unfoldable pub action_effects : Fusion F N → World F N → GpsFix F → Residual F → List (Effect F N)
  action_effects s w fix r =
      let severed : List (Effect F N) =
        if w.sever_ok
        then []
        else failed s fix (nought f32) ∷ failed s fix (narrow r.mag_pos) ∷ [] in
      let engaged : List (Effect F N) =
        if w.engage_ok then [] else failed s fix (nought f32) ∷ [] in
      dump_effects s w r
      ++ (severs_gps
          ∷ (severed ++ (engages_rtb ∷ (engaged ++ (verifies_sever ∷ verifies_rtb ∷ [])))))

  abbrev pub emit : Fusion F N → GpsFix F → Residual F → SpoofKind → Effect F N
  emit s fix r kind = event_at F N s fix.mono_ns kind (narrow r.mag_pos)

  -- An accepted clear: re-anchor, drop the old snapshots, commit.
  unfoldable pub accept_clear : Fusion F N → GpsFix F → Fusion F N
  accept_clear s fix = record s {
    nav = N.re_anchor_after_clearing (N.set_state s.nav normal) fix;
    buffer = clear F s.buffer;
    fsm = commit_susp_to_normal F s.fsm;
  }

  unfoldable pub veto_clear : Fusion F N → F64 → Option F64 → Fusion F N
  veto_clear s t since = record s { fsm = force_back_to_suspicious F s.fsm t since }

  -- The distance by which the re-anchor check fails, if it does.
  unfoldable pub re_anchor_check : Fusion F N → NedPos F → Option F64
  re_anchor_check s gps_ned =
      validate_fix_against_reference F gps_ned (N.dr_pos s.nav) (widen s.re_anchor_max_distance_m)

  -- A clear: vetoed if the check failed by a distance.
  unfoldable pub on_clear :
      Fusion F N → GpsFix F → Residual F → Option F64 → Option F64 → Fusion F N × List (Effect F N)
  on_clear s fix r since (some distance) =
      let k = veto_clear s (secs fix.mono_ns) since in
      (k, event_at F N k fix.mono_ns boot_anchor_rejected (narrow distance) ∷ [])
  on_clear s fix r since none = (accept_clear s fix, emit s fix r state_transition ∷ [])

  -- A transition event of the state machine.
  unfoldable pub on_transition :
      Fusion F N
      → World F N
      → GpsFix F
      → Residual F
      → NedPos F
      → Option F64
      → NavStateKind
      → NavStateKind
      → Fusion F N × List (Effect F N)
  on_transition s w fix r gps_ned since suspicious normal =
      on_clear s fix r since (re_anchor_check s gps_ned)
  on_transition s w fix r gps_ned since from spoofed =
      let k = record s { nav = N.set_state s.nav spoofed } in
      (k, emit s fix r state_transition ∷ action_effects k w fix r)
  on_transition s w fix r gps_ned since from to =
      (record s { nav = N.set_state s.nav to }, emit s fix r state_transition ∷ [])

  unfoldable pub on_event :
      Fusion F N
      → World F N
      → GpsFix F
      → Residual F
      → NedPos F
      → Option F64
      → Event
      → Fusion F N × List (Effect F N)
  on_event s w fix r gps_ned since (jump _) = (s, emit s fix r Types.jump ∷ [])
  on_event s w fix r gps_ned since (drift _) = (s, emit s fix r Types.drift ∷ [])
  on_event s w fix r gps_ned since (transition from to) =
      on_transition s w fix r gps_ned since from to

  -- The loop over the events.
  unfoldable pub on_events :
      Fusion F N
      → World F N
      → GpsFix F
      → Residual F
      → NedPos F
      → Option F64
      → List Event
      → Fusion F N × List (Effect F N)
  on_events s w fix r gps_ned since [] = (s, [])
  on_events s w fix r gps_ned since (e ∷ es) =
      let (k, now) = on_event s w fix r gps_ned since e in
      let (l, later) = on_events k w fix r gps_ned since es in (l, now ++ later)

  -- The state machine's verdict on the residual, and what follows from it.
  unfoldable pub decide :
      Fusion F N → World F N → GpsFix F → Residual F → NedPos F → Fusion F N × List (Effect F N)
  decide s w fix r gps_ned =
      let on = r.dvel_known || ltb s.no_doppler_streak no_doppler_gate_streak in
      let (m, es) =
        evaluate F (set_pos_detectors_enabled F s.fsm on) r (secs fix.mono_ns) fix.hdop fix.sats in
      on_events (record s { fsm = m }) w fix r gps_ned s.fsm.suspicious_since es
