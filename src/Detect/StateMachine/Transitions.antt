-- ===== src/Detect/StateMachine/Transitions.antt =====
-- src/detect/state_machine.rs: which transitions one fix can make, and when it makes them.
use flyingsquirrel.Base.{
  ℕ, ◌≡◌, refl, ◌⊎◌, inl, inr, Bool, List, [], ◌∷◌, ◌++◌, Option, none, some, Bool-cases,
  if◌then◌else◌, arith,
}
use mathlib.Core.Path.{subst}
use flyingsquirrel.Base.Floats.{Floats}
use flyingsquirrel.Types.{NavStateKind, normal, suspicious, spoofed, is_spoofed}
use flyingsquirrel.Detect.Residual.{Residual}
use flyingsquirrel.Detect.Jump.{JumpReason}
use flyingsquirrel.Detect.Drift.{DriftReason}
use flyingsquirrel.Detect.StateMachine.{
  Event, jump, drift, transition, StateMachine, book_dropout, judge, settle, from_normal,
  from_suspicious, evaluate, set_pos_detectors_enabled, note_dropout_recovery,
  note_external_anomaly, force_back_to_suspicious, commit_susp_to_normal, on_clean_anchor,
  drain_flags, jump_events, drift_events,
}
use flyingsquirrel.Detect.StateMachine.Frame.{book_dropout-Same}
use flyingsquirrel.Detect.StateMachine.Invariant.{
  Call, evaluates, sets_enabled, notes_dropout, notes_anomaly, forces_back, commits, anchors,
  consumes_warning, Calls, done, more,
}

-- The diagram: there is no edge from Normal to Spoofed, and none that leaves Spoofed.
pub data Edge : NavStateKind → NavStateKind → Type 0 where
  alarm : Edge normal suspicious
  relent : Edge suspicious normal
  latch : Edge suspicious spoofed

abbrev pub transitions : List Event → List (NavStateKind × NavStateKind)
transitions [] = []
transitions (jump _ ∷ es) = transitions es
transitions (drift _ ∷ es) = transitions es
transitions (transition from to ∷ es) = (from, to) ∷ transitions es

-- The state stays and nothing is reported, or it follows an edge that is reported once.
abbrev pub Moves : NavStateKind → NavStateKind → List Event → Type 0
Moves from to es =
    ((to ≡ from) × (transitions es ≡ [])) ⊎ (Edge from to × (transitions es ≡ (from, to) ∷ []))

transitions-events :
    (j : Option JumpReason) (d : Option DriftReason) (es : List Event)
    → transitions (jump_events j ++ (drift_events d ++ es)) ≡ transitions es
transitions-events none none es = refl
transitions-events none (some _) es = refl
transitions-events (some _) none es = refl
transitions-events (some _) (some _) es = refl

module _ (F : Floats) where
  open F use {F32, F64, f64, widen}

  settle-Moves :
      (s : NavStateKind) (m : StateMachine F) (firing clean : Bool) (t : F64)
      → m.state ≡ s
      → let (k, es) = settle F s m firing clean t in Moves s k.state es
  unfolding settle from_normal from_suspicious
  settle-Moves normal m firing clean t e = grind (arith, alarm)
  settle-Moves suspicious m firing clean t e = grind (arith, relent, latch)
  settle-Moves spoofed m firing clean t e = inl (e, refl)

  judge-Moves :
      (m : StateMachine F) (external : Bool) (r : Residual F) (t : F64) (hdop : Option F32)
      (sats : Option ℕ)
      → let (k, es) = judge F m external r t hdop sats in Moves m.state k.state es
  unfolding judge
  judge-Moves m external r t hdop sats =
      rw (transitions-events _ _ _) (settle-Moves m.state _ _ _ t refl)

  -- One fix keeps the state and reports no transition, or it follows an edge of the diagram and
  -- reports exactly that transition.
  pub evaluate-Moves :
      (m : StateMachine F) (r : Residual F) (t : F64) (hdop : Option F32) (sats : Option ℕ)
      → let (k, es) = evaluate F m r t hdop sats in Moves m.state k.state es
  unfolding evaluate
  evaluate-Moves m r t hdop sats = elim (Bool-cases (is_spoofed m.state)) [
    | inl e ↦ rw (e, if◌then◌else◌) (inl (refl, refl))
    | inr e ↦
        let booked = book_dropout F (drain_flags F m) m.dropout_recovery t in
        let same = (book_dropout-Same F (drain_flags F m) m.dropout_recovery t).state in
        rw (e, if◌then◌else◌)
          (subst
            (λ s.
              Moves s (judge F booked m.external_anomaly r t hdop sats).0.state
                (judge F booked m.external_anomaly r t hdop sats).1)
            same (judge-Moves booked m.external_anomaly r t hdop sats))
  ]

  Call-spoofed : {m k : StateMachine F} → Call F m k → m.state ≡ spoofed → k.state ≡ spoofed
  unfolding evaluate set_pos_detectors_enabled note_dropout_recovery note_external_anomaly
      force_back_to_suspicious commit_susp_to_normal on_clean_anchor
  Call-spoofed {m} (evaluates r t hdop sats) e = ground arith
  Call-spoofed (sets_enabled on) e = ground arith
  Call-spoofed notes_dropout e = e
  Call-spoofed notes_anomaly e = e
  Call-spoofed (forces_back t original) e = ground arith
  Call-spoofed commits e = ground arith
  Call-spoofed anchors e = ground arith
  Call-spoofed consumes_warning e = e

  -- Spoofed is latched: no sequence of fixes, notes, vetoes, commits, re-anchors and changes of
  -- the detector policy leaves it, as long as the operator does not reset.
  pub spoofed_latched : {m k : StateMachine F} → Calls F m k → m.state ≡ spoofed → k.state ≡ spoofed
  spoofed_latched done e = e
  spoofed_latched (more cs c) e = Call-spoofed c (spoofed_latched cs e)
