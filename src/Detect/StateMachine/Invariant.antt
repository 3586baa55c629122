-- ===== src/Detect/StateMachine/Invariant.antt =====
-- src/detect/state_machine.rs: what holds of the state machine between any two calls, and the
-- calls as a step relation.
use flyingsquirrel.Base.{
  ℕ, ◌≤◌, ◌≡◌, ◌⊎◌, Bool, true, false, Option, none, some, is_some, u8_max, arith, refl,
}
use flyingsquirrel.Base.Floats.{Floats}
use flyingsquirrel.Types.{NavStateKind, normal, suspicious, spoofed, is_suspicious}
use flyingsquirrel.Detect.Config.{DetectConfig}
use flyingsquirrel.Detect.Residual.{Residual}
use flyingsquirrel.Detect.StateMachine.{
  StateMachine, new, book_dropout, pause_counted, absorb_pause, judge, settle, from_normal,
  from_suspicious, evaluate, set_pos_detectors_enabled, note_dropout_recovery,
  note_external_anomaly, manual_reset_to_normal, force_back_to_suspicious, commit_susp_to_normal,
  on_clean_anchor, drain_flags, count_dropout,
}

module _ (F : Floats) where
  open F use {F32, F64}

  -- The dwell's start is known exactly in Suspicious; a clean streak is counted only there; the
  -- streak of dropouts fits its `u8`.
  pub record Inv (m : StateMachine F) : Type 0 where
    pub dwell_known : is_some m.suspicious_since ≡ is_suspicious m.state
    pub clean_in_suspicious : (m.last_clean_since ≡ none) ⊎ (m.state ≡ suspicious)
    pub streak_fits : m.consecutive_dropout ≤ u8_max

  absorb_pause-Inv :
      (m : StateMachine F) (t : F64) (since : Option F64)
      → m.suspicious_since ≡ since
      → Inv m
      → Inv (absorb_pause F m t since)
  unfolding absorb_pause
  absorb_pause-Inv m t none e v = v
  absorb_pause-Inv m t (some x) e v = ground arith

  pause_counted-Inv : (m : StateMachine F) (t : F64) → Inv m → Inv (pause_counted F m t)
  unfolding pause_counted
  pause_counted-Inv m t v = ground (arith, absorb_pause-Inv m t m.suspicious_since refl v)

  book_dropout-Inv :
      (m : StateMachine F) (in_recovery : Bool) (t : F64)
      → Inv m
      → Inv (book_dropout F m in_recovery t)
  unfolding book_dropout
  book_dropout-Inv m true t v =
      let counted = pause_counted-Inv (count_dropout F m) t (ground arith) in ground arith
  book_dropout-Inv m false t v = ground arith

  settle-Inv :
      (s : NavStateKind) (m : StateMachine F) (firing clean : Bool) (t : F64)
      → m.state ≡ s
      → Inv m
      → Inv (settle F s m firing clean t).0
  unfolding settle from_normal from_suspicious
  settle-Inv normal m firing clean t e v = ground arith
  settle-Inv suspicious m firing clean t e v = ground arith
  settle-Inv spoofed m firing clean t e v = v

  judge-Inv :
      (m : StateMachine F) (external : Bool) (r : Residual F) (t : F64) (hdop : Option F32)
      (sats : Option ℕ)
      → Inv m
      → Inv (judge F m external r t hdop sats).0
  unfolding judge
  judge-Inv m external r t hdop sats v = settle-Inv m.state _ _ _ t refl (ground arith)

  evaluate-Inv :
      (m : StateMachine F) (r : Residual F) (t : F64) (hdop : Option F32) (sats : Option ℕ)
      → Inv m
      → Inv (evaluate F m r t hdop sats).0
  unfolding evaluate
  evaluate-Inv m r t hdop sats v =
      let booked = book_dropout-Inv (drain_flags F m) m.dropout_recovery t (ground arith) in
      ground (arith, judge-Inv _ m.external_anomaly r t hdop sats booked)

  -- A call on the state machine, an operator's reset left out.
  pub data Call (m : StateMachine F) : StateMachine F → Type 0 where
    evaluates :
        (r : Residual F) (t : F64) (hdop : Option F32) (sats : Option ℕ)
        → Call m (evaluate F m r t hdop sats).0
    sets_enabled : (on : Bool) → Call m (set_pos_detectors_enabled F m on)
    notes_dropout : Call m (note_dropout_recovery F m)
    notes_anomaly : Call m (note_external_anomaly F m)
    forces_back :
        (t : F64) (original : Option F64) → Call m (force_back_to_suspicious F m t original)
    commits : Call m (commit_susp_to_normal F m)
    anchors : Call m (on_clean_anchor F m)
    consumes_warning : Call m (record m { dwell_pause_exceeded_pending = false })

  -- A sequence of such calls.
  pub data Calls (m : StateMachine F) : StateMachine F → Type 0 where
    done : Calls m m
    more : {k l : StateMachine F} → Calls m k → Call k l → Calls m l

  -- What a run of the program can do to the state machine.
  pub data Reach (m : StateMachine F) : StateMachine F → Type 0 where
    here : Reach m m
    call : {k l : StateMachine F} → Reach m k → Call k l → Reach m l
    resets : {k : StateMachine F} → Reach m k → Reach m (manual_reset_to_normal F k)

  Call-Inv : {m k : StateMachine F} → Call m k → Inv m → Inv k
  unfolding set_pos_detectors_enabled note_dropout_recovery note_external_anomaly
      force_back_to_suspicious commit_susp_to_normal on_clean_anchor
  Call-Inv {m} (evaluates r t hdop sats) v = evaluate-Inv m r t hdop sats v
  Call-Inv (sets_enabled on) v = ground arith
  Call-Inv notes_dropout v = ground arith
  Call-Inv notes_anomaly v = ground arith
  Call-Inv (forces_back t none) v = ground arith
  Call-Inv (forces_back t (some x)) v = ground arith
  Call-Inv commits v = ground arith
  Call-Inv anchors v = ground arith
  Call-Inv consumes_warning v = ground arith

  new-Inv : (cfg : DetectConfig F) → Inv (new F cfg)
  unfolding new
  new-Inv cfg = ground arith

  reset-Inv : (m : StateMachine F) → Inv (manual_reset_to_normal F m)
  unfolding manual_reset_to_normal
  reset-Inv m = ground arith

  -- From a new state machine, every sequence of fixes, notes, vetoes, commits, re-anchors and
  -- operator resets keeps the invariant: the dwell's start is known exactly in Suspicious, a clean
  -- streak is counted only there, and the streak of dropouts stays in its `u8`.
  pub Reach-Inv : (cfg : DetectConfig F) {m : StateMachine F} → Reach (new F cfg) m → Inv m
  Reach-Inv cfg here = new-Inv cfg
  Reach-Inv cfg (call r c) = Call-Inv c (Reach-Inv cfg r)
  Reach-Inv cfg (resets {k} r) = reset-Inv k
