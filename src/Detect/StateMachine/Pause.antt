-- ===== src/Detect/StateMachine/Pause.antt =====
-- src/detect/state_machine.rs: how far GPS dropouts can hold the dwell timer back. A Suspicious
-- episode is followed through fixes, notes and vetoed clears; once its budget is spent, nothing in
-- the episode moves the dwell's start, whatever the cadence of the fixes.
use flyingsquirrel.Base.{ℕ, ◌≡◌, ◌⊎◌, Bool, true, false, Option, some, unwrap_or, arith}
use flyingsquirrel.Base.Floats.{Floats, Laws, nought}
use flyingsquirrel.Types.{normal, suspicious, spoofed}
use flyingsquirrel.Detect.Residual.{Residual}
use flyingsquirrel.Detect.StateMachine.{
  StateMachine, absorb_pause, budget_ok, may_pause, pause_counted, count_dropout, book_dropout,
  run_detectors, detector_firing, sample_clean, from_suspicious, settle, judge, drain_flags,
  install, evaluate, set_pos_detectors_enabled, note_dropout_recovery, note_external_anomaly,
  force_back_to_suspicious,
}
use flyingsquirrel.Detect.StateMachine.Frame.{book_dropout-Same}
use flyingsquirrel.Detect.StateMachine.Escalation.{
  from_suspicious-spoofed, sample_clean_parts, run_detectors-Same,
}

module _ (F : Floats) where
  open F use {F32, F64, f64, widen}

  -- Every forward move of the dwell's start is charged, second for second, to the episode's
  -- budget: on a fix behind a dropout in Suspicious, either neither moves, or both grow by the same
  -- time, which is not negative, and the streak and the budget both still allowed it.
  pub pause_charged :
      Laws F
      → (m : StateMachine F) (since t : F64) → m.state ≡ suspicious
      → m.suspicious_since ≡ some since
      → let k = book_dropout F m true t in
        let elapsed = f64.max (f64.sub t (unwrap_or m.last_dropout_t since)) (nought f64) in
        (f64.le (nought f64) elapsed ≡ true)
        × (((k.suspicious_since ≡ some since) × (k.paused_cumulative_s ≡ m.paused_cumulative_s))
            ⊎ ((k.suspicious_since ≡ some (f64.add since elapsed))
                × (k.paused_cumulative_s ≡ f64.add m.paused_cumulative_s elapsed)
                × (may_pause F (count_dropout F m) ≡ true)))
  unfolding book_dropout pause_counted absorb_pause
  pause_charged laws m since t e s =
      (laws.double.le_max_right _ _ laws.double.nought_le, ground arith)

  -- The episode has used its budget up, and its dwell started at `since`.
  abbrev pub Spent : StateMachine F → F64 → Type 0
  Spent m since =
      (m.state ≡ suspicious) × (m.suspicious_since ≡ some since) × (budget_ok F m ≡ false)

  -- A Suspicious episode: fixes that stay in Suspicious, clears that the re-anchor check vetoes
  -- (the veto restores the start read before the fix), and what is noted between fixes.
  pub data Episode (m : StateMachine F) : StateMachine F → Type 0 where
    start : Episode m m
    fix :
        {k : StateMachine F} (r : Residual F) (t : F64) (hdop : Option F32) (sats : Option ℕ)
        → Episode m k
        → (evaluate F k r t hdop sats).0.state ≡ suspicious
        → Episode m (evaluate F k r t hdop sats).0
    veto :
        {k : StateMachine F} (r : Residual F) (t : F64) (hdop : Option F32) (sats : Option ℕ)
        → Episode m k
        → (evaluate F k r t hdop sats).0.state ≡ normal
        → Episode m (force_back_to_suspicious F (evaluate F k r t hdop sats).0 t k.suspicious_since)
    dropout : {k : StateMachine F} → Episode m k → Episode m (note_dropout_recovery F k)
    anomaly : {k : StateMachine F} → Episode m k → Episode m (note_external_anomaly F k)
    policy :
        {k : StateMachine F} (on : Bool)
        → Episode m k
        → Episode m (set_pos_detectors_enabled F k on)

  book_dropout-Spent :
      (m : StateMachine F) (in_recovery : Bool) (t since : F64)
      → Spent m since
      → Spent (book_dropout F m in_recovery t) since
  unfolding book_dropout pause_counted may_pause budget_ok
  book_dropout-Spent m in_recovery t since v = ground arith

  -- What a fix leaves of a spent episode, whether or not it ends it.
  settle-Spent :
      (m : StateMachine F) (firing clean : Bool) (t since : F64)
      → Spent m since
      → let k = (settle F m.state m firing clean t).0 in
        (budget_ok F k ≡ false) × (k.state ≡ suspicious → k.suspicious_since ≡ some since)
  unfolding settle from_suspicious budget_ok
  settle-Spent m firing clean t since v = ground arith

  evaluate-Spent :
      (m : StateMachine F) (r : Residual F) (t : F64) (hdop : Option F32) (sats : Option ℕ)
      (since : F64)
      → Spent m since
      → let k = (evaluate F m r t hdop sats).0 in
        (budget_ok F k ≡ false) × (k.state ≡ suspicious → k.suspicious_since ≡ some since)
  unfolding evaluate judge budget_ok
  evaluate-Spent m r t hdop sats since v =
      let booked = book_dropout F (drain_flags F m) m.dropout_recovery t in
      let spent = book_dropout-Spent (drain_flags F m) m.dropout_recovery t since v in
      let x = run_detectors F booked r hdop sats in
      let fires = detector_firing F x m.external_anomaly in
      let clean = sample_clean F booked.cfg x.drift_detector r fires in
      ground (arith, settle-Spent (install F booked x) fires clean t since spent)

  -- Once the budget of an episode is spent, its dwell keeps its start to the end of the episode.
  pub Episode-Spent :
      {m k : StateMachine F} (since : F64) → Spent m since → Episode m k → Spent k since
  unfolding force_back_to_suspicious budget_ok note_dropout_recovery note_external_anomaly
      set_pos_detectors_enabled
  Episode-Spent since v start = v
  Episode-Spent since v (fix {k} r t hdop sats ep e) =
      let (b, s) = evaluate-Spent k r t hdop sats since (Episode-Spent since v ep) in (e, s e, b)
  Episode-Spent since v (veto {k} r t hdop sats ep e) =
      let before = Episode-Spent since v ep in
      ground (arith, evaluate-Spent k r t hdop sats since before)
  Episode-Spent since v (dropout ep) = Episode-Spent since v ep
  Episode-Spent since v (anomaly ep) = Episode-Spent since v ep
  Episode-Spent since v (policy {k} on ep) = ground (arith, Episode-Spent since v ep)

  -- Dropouts cannot stall the latch: in an episode whose budget was spent, a firing fix that
  -- comes a dwell after the start latches Spoofed, also behind a dropout and after any vetoes.
  pub Spent-latches :
      {m k : StateMachine F} (since : F64) (r : Residual F) (t : F64) (hdop : Option F32)
      (sats : Option ℕ)
      → Spent m since
      → Episode m k
      → detector_firing F (run_detectors F k r hdop sats) k.external_anomaly ≡ true
      → f64.le (widen k.cfg.suspicious_to_spoofed_dwell_s) (f64.sub t since) ≡ true
      → (evaluate F k r t hdop sats).0.state ≡ spoofed
  unfolding evaluate judge settle budget_ok
  Spent-latches {m} {k} since r t hdop sats v ep firing over =
      let now = Episode-Spent since v ep in
      let booked = book_dropout F (drain_flags F k) k.dropout_recovery t in
      let x = run_detectors F booked r hdop sats in
      let fires = detector_firing F x k.external_anomaly in
      let clean = sample_clean F booked.cfg x.drift_detector r fires in
      ground (
        arith,
        now,
        book_dropout-Spent (drain_flags F k) k.dropout_recovery t since now,
        book_dropout-Same F (drain_flags F k) k.dropout_recovery t,
        run_detectors-Same F k booked r hdop sats,
        from_suspicious-spoofed F (install F booked x) fires clean t,
        sample_clean_parts F booked.cfg x.drift_detector r fires,
      )
