-- ===== src/Tests/StateMachine.antt =====
-- Runs of src/detect/state_machine.rs: an alarm, a latch, a clear and a pause.
use flyingsquirrel.Base.{ℕ, ◌≡◌, refl, ◌⊎◌, ◌↔◌, true, false, [], ◌∷◌, ◌++◌, none, some}
use flyingsquirrel.Base.Fixed.{Fixed, fixed, fixed_float, fixed-Laws}
use flyingsquirrel.Base.Int.{◌+ℤ◌, ◌-ℤ◌, ◌*ℤ◌}
use flyingsquirrel.Types.{normal, suspicious, spoofed}
use flyingsquirrel.Detect.Config.{default_config}
use flyingsquirrel.Detect.Residual.{Residual}
use flyingsquirrel.Detect.Drift
use flyingsquirrel.Detect.Jump
use flyingsquirrel.Detect.StateMachine.{
  StateMachine, new, evaluate, note_external_anomaly, note_dropout_recovery, manual_reset_to_normal,
  commit_susp_to_normal, book_dropout, pause_counted, may_pause, must_warn, budget_ok,
  count_dropout, judge, settle, from_normal, from_suspicious, run_detectors, detector_firing,
  sample_clean, drift_quiescent, cusum_peak, pos_thresh,
}
use flyingsquirrel.Detect.StateMachine.Invariant.{
  Inv, evaluates, commits, notes_anomaly, done, more, here, call, resets, Reach-Inv,
}
use flyingsquirrel.Detect.StateMachine.Transitions.{Moves, evaluate-Moves, spoofed_latched}
use flyingsquirrel.Detect.StateMachine.Escalation.{
  Fix, latches_iff, clear_needs, assail_all, sustained_latches,
}
use flyingsquirrel.Detect.StateMachine.Pause.{pause_charged, start, fix, dropout, Spent-latches}

abbrev num : ℕ → Fixed
num n = fixed_float.lit n 0

-- A fix whose position is `m` metres off, without Doppler.
abbrev off : ℕ → Residual fixed
off m = record {
  dpos = record { n = num m; e = num 0; d = num 0 };
  dvel = record { n = num 0; e = num 0; d = num 0 };
  mag_pos = num m;
  mag_vel = num 0;
  dvel_known = false;
  dvel_free = record { n = num 0; e = num 0; d = num 0 };
  mag_vel_free = num 0;
  maneuvering = false;
}

abbrev fresh : StateMachine fixed
fresh = new fixed (default_config fixed)

abbrev at : ℕ → ℕ → Fix fixed
at m t = record { r = off m; t = num t; hdop = none; sats = none }

abbrev latched : StateMachine fixed
latched = assail_all fixed fresh (at 0 100 ∷ at 80 110 ∷ [])

-- In Suspicious since t = 100 s, with an anomaly pending.
abbrev alarmed : StateMachine fixed
alarmed = record (fresh) {
  state = suspicious;
  suspicious_since = some (num 100);
  external_anomaly = true;
}

-- In Suspicious with a clean streak since t = 100 s.
abbrev calming : StateMachine fixed
calming = record (fresh) {
  state = suspicious;
  suspicious_since = some (num 90);
  last_clean_since = some (num 100);
}

abbrev exhausted : StateMachine fixed
exhausted = record (alarmed) { external_anomaly = false; paused_cumulative_s = num 20 }

evaluate-Moves_example :
    Moves normal
      (evaluate fixed fresh (off 80) (num 100) none none).0.state
      (evaluate fixed fresh (off 80) (num 100) none none).1
unfolding new
evaluate-Moves_example = evaluate-Moves fixed fresh (off 80) (num 100) none none

sustained_latches_example :
    (assail_all fixed fresh (at 0 100 ∷ ((at 3 104 ∷ []) ++ at 0 110 ∷ []))).state ≡ spoofed
unfolding new default_config ◌+ℤ◌ ◌-ℤ◌ ◌*ℤ◌
sustained_latches_example =
    sustained_latches fixed fresh (at 0 100) (at 3 104 ∷ []) (at 0 110) refl refl refl

spoofed_latched_example :
    (commit_susp_to_normal fixed (evaluate fixed latched (off 0) (num 200) none none).0).state
    ≡ spoofed
unfolding new default_config note_external_anomaly evaluate judge settle from_normal from_suspicious
    book_dropout run_detectors detector_firing sample_clean Jump.new Jump.evaluate Jump.scale
    Jump.vmismatch_fires Jump.next_count Drift.new Drift.evaluate Drift.sample_of
    Drift.sample_finite Drift.thresholds Drift.learn pos_thresh drift_quiescent cusum_peak ◌+ℤ◌ ◌-ℤ◌
    ◌*ℤ◌
spoofed_latched_example =
    spoofed_latched fixed {m = latched}
      (more (more done (evaluates (off 0) (num 200) none none)) commits) refl

latches_iff_example : ((evaluate fixed alarmed (off 0) (num 110) none none).0.state ≡ spoofed) ↔ (
    (detector_firing fixed (run_detectors fixed alarmed (off 0) none none) true ≡ true)
    × (fixed_float.le (num 10) (fixed_float.sub (num 110) (num 100)) ≡ true))
unfolding new default_config
latches_iff_example = latches_iff fixed alarmed (off 0) (num 110) (num 100) none none refl refl refl

clear_needs_example :
    let x = run_detectors fixed calming (off 0) none none in
    (detector_firing fixed x false ≡ false)
    × (drift_quiescent fixed (default_config fixed) x.drift_detector ≡ true)
    × (fixed_float.lt (num 0) (pos_thresh fixed (default_config fixed) x.drift_detector (off 0))
        ≡ true)
    × (fixed_float.le (num 5) (fixed_float.sub (num 106) (num 100)) ≡ true)
unfolding new default_config evaluate judge settle from_suspicious book_dropout run_detectors
    detector_firing sample_clean drift_quiescent cusum_peak pos_thresh Jump.new Jump.evaluate
    Jump.scale Jump.vmismatch_fires Jump.next_count Drift.new Drift.evaluate Drift.sample_of
    Drift.sample_finite Drift.thresholds Drift.learn ◌+ℤ◌ ◌-ℤ◌ ◌*ℤ◌
clear_needs_example = clear_needs fixed calming (off 0) (num 106) none none refl refl

pause_charged_example :
    let k = book_dropout fixed alarmed true (num 104) in
    let elapsed = fixed_float.max (fixed_float.sub (num 104) (num 100)) (num 0) in
    (fixed_float.le (num 0) elapsed ≡ true)
    × (((k.suspicious_since ≡ some (num 100)) × (k.paused_cumulative_s ≡ num 0))
        ⊎ ((k.suspicious_since ≡ some (fixed_float.add (num 100) elapsed))
            × (k.paused_cumulative_s ≡ fixed_float.add (num 0) elapsed)
            × (may_pause fixed (count_dropout fixed alarmed) ≡ true)))
unfolding new default_config
pause_charged_example = pause_charged fixed fixed-Laws alarmed (num 100) (num 104) refl refl

Reach-Inv_example : Inv fixed (
    manual_reset_to_normal fixed
      (evaluate fixed (note_external_anomaly fixed fresh) (off 0) (num 100) none none).0)
Reach-Inv_example =
    Reach-Inv fixed (default_config fixed)
      (resets (call (call here notes_anomaly) (evaluates (off 0) (num 100) none none)))

-- The budget is spent at 100 s, a fix at 104 s comes behind a dropout, and one at 110 s latches.
Spent-latches_example :
    (evaluate fixed
      (evaluate fixed (note_dropout_recovery fixed exhausted) (off 0) (num 104) none none).0
      (off 80)
      (num 110)
      none
      none).0.state
    ≡ spoofed
unfolding new default_config note_dropout_recovery evaluate judge settle from_suspicious budget_ok
    book_dropout pause_counted may_pause must_warn run_detectors detector_firing sample_clean
    drift_quiescent cusum_peak pos_thresh Jump.new Jump.evaluate Jump.scale Jump.vmismatch_fires
    Jump.next_count Drift.new Drift.evaluate Drift.sample_of Drift.sample_finite Drift.thresholds
    Drift.learn ◌+ℤ◌ ◌-ℤ◌ ◌*ℤ◌
Spent-latches_example =
    Spent-latches fixed {m = exhausted} (num 100) (off 80) (num 110) none none (refl, refl, refl)
      (fix (off 0) (num 104) none none (dropout start) refl) refl refl
