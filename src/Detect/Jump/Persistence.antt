-- ===== src/Detect/Jump/Persistence.antt =====
-- src/detect/jump.rs: the persistence gate of the velocity-mismatch test.
use flyingsquirrel.Base.{
  ◌+◌, ◌≤◌, ◌<◌, ◌≡◌, ◌≢◌, refl, ◌↔◌, true, false, List, [], ◌∷◌, none, some, min, u8_max, arith,
}
use flyingsquirrel.Base.Floats.{Floats}
use flyingsquirrel.Base.Lists.{length, All}
use flyingsquirrel.Detect.Config.{DetectConfig}
use flyingsquirrel.Detect.Residual.{Residual}
use flyingsquirrel.Detect.Jump.{
  JumpDetector, velocity_mismatch, new, scale, next_count, vmismatch_fires, evaluate,
}

module _ (F : Floats) where
  open F use {F32, f32, narrow}

  -- A fix with Doppler whose velocity residual is over the threshold; no quality fields.
  abbrev pub Mismatch : DetectConfig F → Residual F → Type 0
  Mismatch cfg r =
      (r.dvel_known ≡ true) × (f32.lt cfg.max_velocity_mismatch_mps (narrow r.mag_vel) ≡ true)

  abbrev pub feed : JumpDetector F → List (Residual F) → JumpDetector F
  feed m [] = m
  feed m (r ∷ rs) = feed (evaluate F m r none none).0 rs

  feed_count :
      (m : JumpDetector F) (rs : List (Residual F))
      → m.consecutive_vmismatch ≤ u8_max
      → All (Mismatch m.cfg) rs
      → ((feed m rs).consecutive_vmismatch ≡ min (m.consecutive_vmismatch + length rs) u8_max)
        × ((feed m rs).cfg ≡ m.cfg)
  unfolding evaluate scale next_count
  feed_count m [] h a = (omega arith, refl)
  feed_count m (r ∷ rs) h (k, ks) =
      let step = feed_count (evaluate F m r none none).0 rs in ground (arith, step)

  -- The gate is exact: after a run of consecutive mismatching fixes of any length on a new
  -- detector, one more reports a velocity mismatch exactly when the run has then reached
  -- `jump_persist_fixes`, for every setting of that `u8`.
  pub persistence_iff :
      (cfg : DetectConfig F) (rs : List (Residual F)) (r : Residual F)
      → cfg.jump_persist_fixes ≤ u8_max
      → All (Mismatch cfg) rs
      → Mismatch cfg r
      → ((evaluate F (feed (new F cfg) rs) r none none).1 ≡ some velocity_mismatch)
        ↔ (cfg.jump_persist_fixes ≤ length rs + 1)
  unfolding evaluate scale vmismatch_fires next_count new
  persistence_iff cfg rs r h a b = ground (arith, feed_count (new F cfg) rs (omega arith) a)

  -- A fix with Doppler that agrees, from any count, restarts the run: with a gate of two or more, the
  -- next mismatching fix reports no velocity mismatch.
  pub agreement_restarts :
      (m : JumpDetector F) (calm r : Residual F)
      → 2 ≤ m.cfg.jump_persist_fixes
      → calm.dvel_known ≡ true
      → f32.lt m.cfg.max_velocity_mismatch_mps (narrow calm.mag_vel) ≡ false
      → (evaluate F (feed m (calm ∷ [])) r none none).1 ≢ some velocity_mismatch
  unfolding evaluate scale vmismatch_fires next_count
  agreement_restarts m calm r h k l = ground arith

  -- A fix without Doppler takes one off the count and does not restart it. So with a gate of three or
  -- more the reported mismatches need not be consecutive: behind `jump_persist_fixes - 1` of them,
  -- one fix without Doppler and two more mismatching fixes are reported at the second of the two.
  pub doppler_gap_bridged :
      (m : JumpDetector F) (silent r₁ r₂ : Residual F)
      → 3 ≤ m.cfg.jump_persist_fixes
      → m.cfg.jump_persist_fixes ≤ u8_max
      → m.consecutive_vmismatch + 1 ≡ m.cfg.jump_persist_fixes
      → silent.dvel_known ≡ false
      → Mismatch m.cfg r₁
      → Mismatch m.cfg r₂
      → (evaluate F (feed m (silent ∷ r₁ ∷ [])) r₂ none none).1 ≡ some velocity_mismatch
  unfolding evaluate scale vmismatch_fires next_count
  doppler_gap_bridged m silent r₁ r₂ h k c e a b = ground arith

  -- With the gate of two that is the default, and a count that has not reached it, a fix without
  -- Doppler does keep the next mismatching fix from being reported.
  pub doppler_gap_decays :
      (m : JumpDetector F) (silent r : Residual F)
      → m.cfg.jump_persist_fixes ≡ 2
      → m.consecutive_vmismatch < 2
      → silent.dvel_known ≡ false
      → (evaluate F (feed m (silent ∷ [])) r none none).1 ≢ some velocity_mismatch
  unfolding evaluate scale vmismatch_fires next_count
  doppler_gap_decays m silent r h c e = ground arith
