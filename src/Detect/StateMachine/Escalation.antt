-- ===== src/Detect/StateMachine/Escalation.antt =====
-- src/detect/state_machine.rs: exactly when a fix latches Spoofed, what a clear needs, and that a
-- sustained anomaly latches.
use flyingsquirrel.Base.{
  ℕ, ◌≡◌, ◌≢◌, ◌⊎◌, inl, inr, ◌↔◌, Bool, true, false, List, [], ◌∷◌, ◌++◌, Option, some, unwrap_or,
  arith,
}
use flyingsquirrel.Base.Floats.{Floats}
use flyingsquirrel.Types.{normal, suspicious, spoofed}
use flyingsquirrel.Detect.Config.{DetectConfig}
use flyingsquirrel.Detect.Drift.{DriftDetector}
use flyingsquirrel.Detect.Residual.{Residual}
use flyingsquirrel.Detect.StateMachine.{
  StateMachine, Detection, book_dropout, judge, settle, from_normal, from_suspicious, evaluate,
  note_external_anomaly, run_detectors, detector_firing, sample_clean, drift_quiescent, pos_thresh,
  drain_flags, install,
}
use flyingsquirrel.Detect.StateMachine.Frame.{book_dropout-Same}

-- What one fix hands to the state machine.
pub record Fix (F : Floats) : Type 0 where
  pub r : Residual F
  pub t : F.F64
  pub hdop : Option F.F32
  pub sats : Option ℕ

module _ (F : Floats) where
  open F use {F32, F64, f32, f64, widen, narrow}

  pub from_suspicious-spoofed :
      (m : StateMachine F) (firing clean : Bool) (t : F64)
      → m.state ≡ suspicious
      → ((from_suspicious F m firing clean t).0.state ≡ spoofed) ↔ (
          (clean ≡ false)
          × (firing ≡ true)
          × (f64.le
                (widen m.cfg.suspicious_to_spoofed_dwell_s)
                (f64.sub t (unwrap_or m.suspicious_since t))
              ≡ true))
  unfolding from_suspicious
  from_suspicious-spoofed m firing clean t e = ground arith

  from_suspicious-normal :
      (m : StateMachine F) (firing clean : Bool) (t : F64)
      → m.state ≡ suspicious
      → ((from_suspicious F m firing clean t).0.state ≡ normal) ↔ (
          (clean ≡ true)
          × (f64.le (widen m.cfg.normal_clear_dwell_s) (f64.sub t (unwrap_or m.last_clean_since t))
              ≡ true))
  unfolding from_suspicious
  from_suspicious-normal m firing clean t e = ground arith

  pub sample_clean_parts :
      (cfg : DetectConfig F) (drifts : DriftDetector F) (r : Residual F) (firing : Bool)
      → sample_clean F cfg drifts r firing ≡ true
      → (firing ≡ false)
        × (drift_quiescent F cfg drifts ≡ true)
        × (f32.lt (narrow r.mag_pos) (pos_thresh F cfg drifts r) ≡ true)
  unfolding sample_clean
  sample_clean_parts cfg drifts r firing h = ground arith

  pub run_detectors-Same :
      (m k : StateMachine F) (r : Residual F) (hdop : Option F32) (sats : Option ℕ)
      → k.jump_detector ≡ m.jump_detector
      → k.drift_detector ≡ m.drift_detector
      → k.pos_detectors_enabled ≡ m.pos_detectors_enabled
      → run_detectors F k r hdop sats ≡ run_detectors F m r hdop sats
  unfolding run_detectors
  run_detectors-Same m k r hdop sats j d p = rw (j, d, p)

  -- In Suspicious, a fix that is not behind a dropout latches Spoofed exactly when a detector or an
  -- external anomaly fires on it and the dwell since the entry has run out.
  pub latches_iff :
      (m : StateMachine F) (r : Residual F) (t since : F64) (hdop : Option F32) (sats : Option ℕ)
      → m.state ≡ suspicious
      → m.suspicious_since ≡ some since
      → m.dropout_recovery ≡ false
      → ((evaluate F m r t hdop sats).0.state ≡ spoofed) ↔ (
          (detector_firing F (run_detectors F m r hdop sats) m.external_anomaly ≡ true)
          × (f64.le (widen m.cfg.suspicious_to_spoofed_dwell_s) (f64.sub t since) ≡ true))
  unfolding evaluate judge settle book_dropout run_detectors
  latches_iff m r t since hdop sats e s d =
      let x = run_detectors F m r hdop sats in
      let firing = detector_firing F x m.external_anomaly in
      let clean = sample_clean F m.cfg x.drift_detector r firing in
      let booked = book_dropout F (drain_flags F m) false t in
      ground (
        arith,
        from_suspicious-spoofed (install F booked x) firing clean t,
        sample_clean_parts m.cfg x.drift_detector r firing,
      )

  -- A fix that clears Suspicious has no detector and no anomaly firing on it, its position residual
  -- is under the clean threshold, the five position sums are quiescent, and the clean streak that
  -- ends with it has lasted the clear dwell.
  pub clear_needs :
      (m : StateMachine F) (r : Residual F) (t : F64) (hdop : Option F32) (sats : Option ℕ)
      → m.state ≡ suspicious
      → (evaluate F m r t hdop sats).0.state ≡ normal
      → let x = run_detectors F m r hdop sats in
        (detector_firing F x m.external_anomaly ≡ false)
        × (drift_quiescent F m.cfg x.drift_detector ≡ true)
        × (f32.lt (narrow r.mag_pos) (pos_thresh F m.cfg x.drift_detector r) ≡ true)
        × (f64.le (widen m.cfg.normal_clear_dwell_s) (f64.sub t (unwrap_or m.last_clean_since t))
            ≡ true)
  unfolding evaluate judge settle
  clear_needs m r t hdop sats e h =
      let booked = book_dropout F (drain_flags F m) m.dropout_recovery t in
      let x = run_detectors F booked r hdop sats in
      let firing = detector_firing F x m.external_anomaly in
      let clean = sample_clean F booked.cfg x.drift_detector r firing in
      ground (
        arith,
        book_dropout-Same F (drain_flags F m) m.dropout_recovery t,
        run_detectors-Same m booked r hdop sats,
        from_suspicious-normal (install F booked x) firing clean t,
        sample_clean_parts booked.cfg x.drift_detector r firing,
      )

  -- A fix on which an out-of-band detector has registered an anomaly.
  abbrev pub assail : StateMachine F → Fix F → StateMachine F
  assail m x = (evaluate F (note_external_anomaly F m) x.r x.t x.hdop x.sats).0

  abbrev pub assail_all : StateMachine F → List (Fix F) → StateMachine F
  assail_all m [] = m
  assail_all m (x ∷ xs) = assail_all (assail m x) xs

  -- Suspicious since `since`, with no dropout pending.
  abbrev Waiting : StateMachine F → F64 → Type 0
  Waiting m since =
      (m.state ≡ suspicious) × (m.suspicious_since ≡ some since) × (m.dropout_recovery ≡ false)

  detector_firing_external : (x : Detection F) → detector_firing F x true ≡ true
  unfolding detector_firing
  detector_firing_external x = ground arith

  sample_clean_firing :
      (cfg : DetectConfig F) (drifts : DriftDetector F) (r : Residual F)
      → sample_clean F cfg drifts r true ≡ false
  unfolding sample_clean
  sample_clean_firing cfg drifts r = ground arith

  -- With an anomaly registered, the `match` sees a firing detector and no clean sample.
  assail_lem :
      (m : StateMachine F) (x : Fix F)
      → m.state ≢ spoofed
      → m.dropout_recovery ≡ false
      → let booked = book_dropout F (drain_flags F m) false x.t in
        let det = run_detectors F booked x.r x.hdop x.sats in
        assail m x ≡ (settle F m.state (install F booked det) true false x.t).0
  unfolding evaluate judge book_dropout note_external_anomaly run_detectors
  assail_lem m x n d = ground (
    arith,
    detector_firing_external (run_detectors F m x.r x.hdop x.sats),
    sample_clean_firing m.cfg (run_detectors F m x.r x.hdop x.sats).drift_detector x.r,
  )

  -- The facts about one anomalous fix that the induction carries.
  abbrev Escalates : StateMachine F → F64 → F64 → StateMachine F → Type 0
  Escalates m since t k =
      ((k.state ≡ spoofed) ⊎ Waiting k since)
      × (k.cfg ≡ m.cfg)
      × (f64.le (widen m.cfg.suspicious_to_spoofed_dwell_s) (f64.sub t since) ≡ true
          → k.state ≡ spoofed)

  settle-Escalates :
      (m : StateMachine F) (since t : F64)
      → Waiting m since
      → Escalates m since t (settle F m.state m true false t).0
  unfolding settle from_suspicious
  settle-Escalates m since t w = ground arith

  assail-Escalates :
      (m : StateMachine F) (x : Fix F) (since : F64)
      → Waiting m since
      → Escalates m since x.t (assail m x)
  unfolding book_dropout
  assail-Escalates m x since w =
      let booked = book_dropout F (drain_flags F m) false x.t in
      let det = run_detectors F booked x.r x.hdop x.sats in
      rw (assail_lem m x (ground arith) w.2)
        (settle-Escalates (install F booked det) since x.t (ground arith))

  assail-normal :
      (m : StateMachine F) (x : Fix F)
      → m.state ≡ normal
      → m.dropout_recovery ≡ false
      → Waiting (assail m x) x.t × ((assail m x).cfg ≡ m.cfg)
  unfolding settle from_normal book_dropout
  assail-normal m x e d = ground (arith, assail_lem m x (ground arith) d)

  assail_spoofed :
      (m : StateMachine F) (x : Fix F) → m.state ≡ spoofed → (assail m x).state ≡ spoofed
  unfolding evaluate note_external_anomaly
  assail_spoofed m x e = ground arith

  assail_all-spoofed :
      (m : StateMachine F) (xs : List (Fix F))
      → m.state ≡ spoofed
      → (assail_all m xs).state ≡ spoofed
  assail_all-spoofed m [] e = e
  assail_all-spoofed m (x ∷ xs) e = assail_all-spoofed (assail m x) xs (assail_spoofed m x e)

  assail_all-Waiting :
      (m : StateMachine F) (xs : List (Fix F)) (last : Fix F) (since : F64)
      → Waiting m since
      → f64.le (widen m.cfg.suspicious_to_spoofed_dwell_s) (f64.sub last.t since) ≡ true
      → (assail_all m (xs ++ last ∷ [])).state ≡ spoofed
  assail_all-Waiting m [] last since w h = (assail-Escalates m last since w).2 h
  assail_all-Waiting m (x ∷ xs) last since w h =
      let (next, same, over) = assail-Escalates m x since w in
      elim next [
        | inl e ↦ assail_all-spoofed (assail m x) (xs ++ last ∷ []) e
        | inr w' ↦ assail_all-Waiting (assail m x) xs last since w' (rw same h)
      ]

  -- A sustained anomaly latches: from Normal with no dropout pending, if every fix has an anomaly
  -- registered, then Spoofed is reached by the first fix that is a dwell later than the first one,
  -- whatever the residuals are and however many fixes lie between.
  pub sustained_latches :
      (m : StateMachine F) (first : Fix F) (between : List (Fix F)) (last : Fix F)
      → m.state ≡ normal
      → m.dropout_recovery ≡ false
      → f64.le (widen m.cfg.suspicious_to_spoofed_dwell_s) (f64.sub last.t first.t) ≡ true
      → (assail_all m (first ∷ (between ++ last ∷ []))).state ≡ spoofed
  sustained_latches m first between last e d h =
      let (w, c) = assail-normal m first e d in
      assail_all-Waiting (assail m first) between last first.t w (rw c h)
