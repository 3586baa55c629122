-- ===== src/Tests/Detectors.antt =====
-- Runs of src/detect/drift.rs, src/detect/jump.rs and src/detect/residual.rs.
use flyingsquirrel.Base.{ℕ, ◌+◌, ◌≤◌, ◌≡◌, refl, ◌⊎◌, ◌↔◌, true, false, [], ◌∷◌, none, some, arith}
use flyingsquirrel.Base.Fixed.{Fixed, fixed, fixed_float, fixed-Laws}
use flyingsquirrel.Base.Int.{◌+ℤ◌, ◌-ℤ◌, ◌*ℤ◌}
use flyingsquirrel.Detect.Config.{default_config}
use flyingsquirrel.Detect.Residual.{Residual, ResidualBuffer, Snapshot}
use flyingsquirrel.Detect.Drift.{
  CusumState, DriftDetector, DriftReason, north_positive, magnitude, evaluate, armed_step,
  accumulate, update_floors, sample_of, sample_finite, thresholds, reason, warmup_fixes, learn,
}
use flyingsquirrel.Detect.Drift
use flyingsquirrel.Detect.Drift.Bounds.{Reading, Inv, run, run-new-Inv}
use flyingsquirrel.Detect.Drift.Lanes.{Over, positive, evaluate_reports, floors_frozen}
use flyingsquirrel.Detect.Jump.{JumpDetector, velocity_mismatch}
use flyingsquirrel.Detect.Jump
use flyingsquirrel.Detect.Jump.Persistence.{feed, persistence_iff}

abbrev num : ℕ → Fixed
num n = fixed_float.lit n 0

-- A fix `m` metres off to the north, whose Doppler is `v` metres a second off.
abbrev apart : ℕ → ℕ → Residual fixed
apart m v = record {
  dpos = record { n = num m; e = num 0; d = num 0 };
  dvel = record { n = num v; e = num 0; d = num 0 };
  mag_pos = num m;
  mag_vel = num v;
  dvel_known = true;
  dvel_free = record { n = num 0; e = num 0; d = num 0 };
  mag_vel_free = num 0;
  maneuvering = false;
}

abbrev silent : Residual fixed
silent = record (apart 0 0) { dvel_known = false }

-- An armed detector with 20 m gathered on the north axis.
abbrev armed : DriftDetector fixed
armed = record (Drift.new fixed (default_config fixed)) {
  state = record {
    s_pos_n = num 20;
    s_neg_n = num 0;
    s_pos_e = num 0;
    s_neg_e = num 0;
    s_mag = num 20;
    s_vel_aiding = num 0;
  };
  warmup = 20;
}

abbrev reading : ℕ → Reading fixed
reading m = record { r = apart m 0; hdop = none; sats = none }

evaluate_reports_example :
    (sample_finite fixed (sample_of fixed (apart 10 0)) ≡ true)
    × (20 ≤ 20)
    × Over fixed
        (evaluate fixed armed (apart 10 0) none none).0.state
        (num 25)
        (num 30)
        (num 8)
        north_positive
unfolding Drift.new default_config evaluate armed_step accumulate update_floors sample_of
    sample_finite thresholds reason ◌+ℤ◌ ◌-ℤ◌ ◌*ℤ◌
evaluate_reports_example = evaluate_reports fixed armed (apart 10 0) none none north_positive refl

floors_frozen_example :
    let k = (evaluate fixed armed (apart 10 0) none none).0 in
    let st = armed.state in
    ((k.mag_noise_ewma ≡ num 0) ⊎ (positive fixed st.s_mag ≡ false))
    × ((k.vel_aiding_noise ≡ num 0) ⊎ (positive fixed st.s_vel_aiding ≡ false))
    × ((k.axis_noise_n ≡ num 0)
        ⊎ ((positive fixed st.s_pos_n ≡ false) × (positive fixed st.s_neg_n ≡ false)))
    × ((k.axis_noise_e ≡ num 0)
        ⊎ ((positive fixed st.s_pos_e ≡ false) × (positive fixed st.s_neg_e ≡ false)))
unfolding Drift.new
floors_frozen_example = floors_frozen fixed fixed-Laws armed (apart 10 0) none none (omega arith)

run-new-Inv_example :
    Inv fixed (run fixed (Drift.new fixed (default_config fixed)) (reading 3 ∷ reading 5 ∷ []))
run-new-Inv_example =
    run-new-Inv fixed fixed-Laws (default_config fixed) (reading 3 ∷ reading 5 ∷ [])

persistence_iff_example :
    ((Jump.evaluate fixed
        (feed fixed (Jump.new fixed (default_config fixed)) (apart 0 20 ∷ []))
        (apart 0 20)
        none
        none).1
      ≡ some velocity_mismatch)
    ↔ (2 ≤ 1 + 1)
unfolding default_config
persistence_iff_example =
    persistence_iff fixed (default_config fixed) (apart 0 20 ∷ []) (apart 0 20) (omega arith)
      ((refl, refl), tt) (refl, refl)

-- A gate of three, with two mismatches counted.
abbrev gated : JumpDetector fixed
gated = record {
  cfg = record (default_config fixed) { jump_persist_fixes = 3 };
  consecutive_vmismatch = 2;
}

abbrev shot : ℕ → Snapshot fixed
shot t = record {
  mono_secs = num t;
  pos = record { n = num t; e = num 0; d = num 0 };
  vel = record { n = num 1; e = num 0; d = num 0 };
}

abbrev buffer : ResidualBuffer fixed
buffer = record {
  buf = shot 1 ∷ shot 2 ∷ shot 3 ∷ [];
  capacity = 3;
  window_secs = num 5;
  max_extrapolation_s = num 1;
}
