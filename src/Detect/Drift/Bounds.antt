-- ===== src/Detect/Drift/Bounds.antt =====
-- src/detect/drift.rs: what holds of the drift detector after any fixes, and how it arms.
use flyingsquirrel.Base.{
  ℕ, ◌+◌, ◌≤◌, ◌<◌, ◌≡◌, true, List, [], ◌∷◌, Option, min, if◌then◌else◌, arith,
}
use flyingsquirrel.Base.Floats.{Floats, Laws, nought}
use flyingsquirrel.Detect.Config.{DetectConfig}
use flyingsquirrel.Detect.Residual.{Residual}
use flyingsquirrel.Detect.Drift.{
  DriftDetector, Sample, sample_of, sample_finite, warmup_fixes, new, learn, update_floors,
  accumulate, armed_step, eff_k, evaluate,
}

-- One evaluation's arguments.
pub record Reading (F : Floats) : Type 0 where
  pub r : Residual F
  pub hdop : Option F.F32
  pub sats : Option ℕ

module _ (F : Floats) where
  open F use {F32, f32}

  abbrev pub NotNegative : F32 → Type 0
  NotNegative x = f32.le (nought f32) x ≡ true

  -- No sum is negative or NaN, and the warm-up counter stops at its end.
  pub record Inv (m : DriftDetector F) : Type 0 where
    pub pos_n : NotNegative m.state.s_pos_n
    pub neg_n : NotNegative m.state.s_neg_n
    pub pos_e : NotNegative m.state.s_pos_e
    pub neg_e : NotNegative m.state.s_neg_e
    pub mag : NotNegative m.state.s_mag
    pub vel_aiding : NotNegative m.state.s_vel_aiding
    pub warmup_le : m.warmup ≤ warmup_fixes

  abbrev pub run : DriftDetector F → List (Reading F) → DriftDetector F
  run m [] = m
  run m (x ∷ xs) = run (evaluate F m x.r x.hdop x.sats).0 xs

  module _ (laws : Laws F) where
    floor_zero : (a : F32) → NotNegative (f32.max a (nought f32))
    floor_zero a = laws.single.le_max_right a (nought f32) laws.single.nought_le

    new-Inv : (cfg : DetectConfig F) → Inv (new F cfg)
    unfolding new
    new-Inv cfg = ground (arith, laws.single.nought_le)

    learn-Inv : (m : DriftDetector F) (x : Sample F) → m.warmup < warmup_fixes → Inv (learn F m x)
    unfolding learn
    learn-Inv m x h = ground (arith, laws.single.nought_le)

    armed_step-Inv : (m : DriftDetector F) (x : Sample F) → Inv m → Inv (armed_step F m x)
    unfolding armed_step accumulate update_floors
    armed_step-Inv m x v = record {
      pos_n = floor_zero _;
      neg_n = floor_zero _;
      pos_e = floor_zero _;
      neg_e = floor_zero _;
      mag = floor_zero _;
      vel_aiding = ground (
        arith,
        floor_zero (
            f32.sub (f32.add m.state.s_vel_aiding x.rvel_free) (
              eff_k F m.cfg.vel_aiding_cusum_k_mps (update_floors F m x).vel_aiding_noise
                (f32.lit 2 0))),
        v.vel_aiding,
      );
      warmup_le = v.warmup_le;
    }

    evaluate-Inv :
        (m : DriftDetector F) (r : Residual F) (hdop : Option F32) (sats : Option ℕ)
        → Inv m
        → Inv (evaluate F m r hdop sats).0
    unfolding evaluate
    evaluate-Inv m r hdop sats v =
        ground (arith, learn-Inv m (sample_of F r), armed_step-Inv m (sample_of F r) v)

    run-Inv : (m : DriftDetector F) (xs : List (Reading F)) → Inv m → Inv (run m xs)
    run-Inv m [] v = v
    run-Inv m (x ∷ xs) v =
        run-Inv (evaluate F m x.r x.hdop x.sats).0 xs (evaluate-Inv m x.r x.hdop x.sats v)

    -- After any fixes, non-finite ones included, every CUSUM is at least 0 (so none is NaN), and
    -- the warm-up counter has not passed 20.
    pub run-new-Inv : (cfg : DetectConfig F) (xs : List (Reading F)) → Inv (run (new F cfg) xs)
    run-new-Inv cfg xs = run-Inv (new F cfg) xs (new-Inv cfg)

  -- How many of the readings the detector accepts as finite.
  abbrev pub finite_count : List (Reading F) → ℕ
  finite_count [] = 0
  finite_count (x ∷ xs) =
      let rest = finite_count xs in if sample_finite F (sample_of F x.r) then rest + 1 else rest

  evaluate-warmup :
      (m : DriftDetector F) (r : Residual F) (hdop : Option F32) (sats : Option ℕ)
      → m.warmup ≤ warmup_fixes
      → (evaluate F m r hdop sats).0.warmup
        ≡ (if sample_finite F (sample_of F r) then min (m.warmup + 1) warmup_fixes else m.warmup)
  unfolding evaluate learn armed_step accumulate update_floors
  evaluate-warmup m r hdop sats h = ground arith

  run-warmup :
      (m : DriftDetector F) (xs : List (Reading F))
      → m.warmup ≤ warmup_fixes
      → (run m xs).warmup ≡ min (m.warmup + finite_count xs) warmup_fixes
  run-warmup m [] h = omega arith
  run-warmup m (x ∷ xs) h =
      let step = evaluate-warmup m x.r x.hdop x.sats h in
      ground (arith, step, run-warmup (evaluate F m x.r x.hdop x.sats).0 xs)

  -- The detector arms on its own: after any readings the warm-up counter is the number of finite
  -- ones, up to 20, so the 20th finite fix ends the warm-up and non-finite fixes never count.
  pub warmup-run :
      (cfg : DetectConfig F) (xs : List (Reading F))
      → (run (new F cfg) xs).warmup ≡ min (finite_count xs) warmup_fixes
  unfolding new
  warmup-run cfg xs = omega (arith, run-warmup (new F cfg) xs (omega arith))
