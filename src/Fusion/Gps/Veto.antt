-- ===== src/Fusion/Gps/Veto.antt =====
-- src/fusion.rs: the veto of a clear whose fix is too far from the dead-reckoned position.
use flyingsquirrel.Base.{◌≡◌, refl, ◌||◌, ltb, List, [], ◌∷◌, Option, none, some, arith}
use mathlib.Core.Path.{subst, sym}
use flyingsquirrel.Base.Floats.{Floats}
use flyingsquirrel.Types.{GpsFix, NedPos, normal, suspicious}
use flyingsquirrel.Detect.StateMachine.{
  Event, jump, drift, transition, evaluate, set_pos_detectors_enabled, force_back_to_suspicious,
}
use flyingsquirrel.Detect.StateMachine.Transitions.{transitions, evaluate-Moves}
use flyingsquirrel.Detect.Residual.{Residual}
use flyingsquirrel.Nav.Reckoner.{Reckoner}
use flyingsquirrel.Fusion.Task.{Fusion, World}
use flyingsquirrel.Fusion.Verdict.{
  on_clear, veto_clear, on_event, on_events, on_transition, decide, re_anchor_check,
  no_doppler_gate_streak,
}
use flyingsquirrel.Fusion.Gps.Events.{enabled-state}

module _ (F : Floats) (N : Reckoner F) where
  open F use {F64}

  -- Back in Suspicious with the dwell's old start, and nothing re-anchored or dropped.
  pub record Vetoed (s k : Fusion F N) (since : F64) : Type 0 where
    pub state : k.fsm.state ≡ suspicious
    pub dwell : k.fsm.suspicious_since ≡ some since
    pub nav : k.nav ≡ s.nav
    pub buffer : k.buffer ≡ s.buffer

  on_events-none :
      (s : Fusion F N) (w : World F N) (fix : GpsFix F) (r : Residual F) (gps_ned : NedPos F)
      (since : Option F64) (es : List Event)
      → transitions es ≡ []
      → (on_events F N s w fix r gps_ned since es).0 ≡ s
  unfolding on_events on_event
  on_events-none s w fix r gps_ned since [] e = refl
  on_events-none s w fix r gps_ned since (jump _ ∷ es) e =
      on_events-none s w fix r gps_ned since es e
  on_events-none s w fix r gps_ned since (drift _ ∷ es) e =
      on_events-none s w fix r gps_ned since es e
  on_events-none s w fix r gps_ned since (transition from to ∷ es) e = cc

  on_clear-Vetoed :
      (s : Fusion F N) (fix : GpsFix F) (r : Residual F) (since : F64) (check : Option F64)
      (d : F64)
      → s.fsm.state ≡ normal
      → check ≡ some d
      → Vetoed s (on_clear F N s fix r (some since) check).0 since
  unfolding on_clear veto_clear force_back_to_suspicious
  on_clear-Vetoed s fix r since none d e c = cc
  on_clear-Vetoed s fix r since (some x) d e c = record {
    state = ground arith;
    dwell = ground arith;
    nav = refl;
    buffer = refl;
  }

  on_events-Vetoed :
      (s : Fusion F N) (w : World F N) (fix : GpsFix F) (r : Residual F) (gps_ned : NedPos F)
      (since d : F64) (es : List Event)
      → s.fsm.state ≡ normal
      → re_anchor_check F N s gps_ned ≡ some d
      → transitions es ≡ (suspicious, normal) ∷ []
      → Vetoed s (on_events F N s w fix r gps_ned (some since) es).0 since
  unfolding on_events on_event on_transition
  on_events-Vetoed s w fix r gps_ned since d [] e c one = cc
  on_events-Vetoed s w fix r gps_ned since d (jump _ ∷ es) e c one =
      on_events-Vetoed s w fix r gps_ned since d es e c one
  on_events-Vetoed s w fix r gps_ned since d (drift _ ∷ es) e c one =
      on_events-Vetoed s w fix r gps_ned since d es e c one
  on_events-Vetoed s w fix r gps_ned since d (transition suspicious normal ∷ es) e c one =
      let rest : transitions es ≡ [] = cc in
      let step = on_clear F N s fix r (some since) (re_anchor_check F N s gps_ned) in
      subst (λ z. Vetoed s z since)
        (sym (on_events-none step.0 w fix r gps_ned (some since) es rest))
        (on_clear-Vetoed s fix r since (re_anchor_check F N s gps_ned) d e c)
  on_events-Vetoed s w fix r gps_ned since d (transition from to ∷ es) e c one = cc

  -- A fix that would clear Suspicious and is too far from the dead-reckoned position does not: the
  -- machine is put back to Suspicious with the dwell's old start, so repeated clears cannot restart
  -- the dwell, and neither the dead reckoner is re-anchored nor the snapshots dropped.
  pub decide-Vetoed :
      (s : Fusion F N) (w : World F N) (fix : GpsFix F) (r : Residual F) (gps_ned : NedPos F)
      (since d : F64)
      → s.fsm.state ≡ suspicious
      → s.fsm.suspicious_since ≡ some since
      → re_anchor_check F N s gps_ned ≡ some d
      → (evaluate F
          (set_pos_detectors_enabled F s.fsm
            (r.dvel_known || ltb s.no_doppler_streak no_doppler_gate_streak))
          r
          (F.secs fix.mono_ns)
          fix.hdop
          fix.sats).0.state
        ≡ normal
      → Vetoed s (decide F N s w fix r gps_ned).0 since
  unfolding decide re_anchor_check
  decide-Vetoed s w fix r gps_ned since d e k c n =
      let on = r.dvel_known || ltb s.no_doppler_streak no_doppler_gate_streak in
      let out =
        evaluate F (set_pos_detectors_enabled F s.fsm on) r (F.secs fix.mono_ns) fix.hdop
          fix.sats in
      let moves =
        evaluate-Moves F (set_pos_detectors_enabled F s.fsm on) r (F.secs fix.mono_ns) fix.hdop
          fix.sats in
      let same = enabled-state F N s.fsm on in
      let one : transitions out.1 ≡ (suspicious, normal) ∷ [] = ground (arith, moves, same) in
      let vetoed =
        on_events-Vetoed (record s { fsm = out.0 }) w fix r gps_ned since d out.1 n c one in
      subst
        (λ z. Vetoed s (on_events F N (record s { fsm = out.0 }) w fix r gps_ned z out.1).0 since)
        (sym k)
        (record {
          state = vetoed.state;
          dwell = vetoed.dwell;
          nav = vetoed.nav;
          buffer = vetoed.buffer;
        })
