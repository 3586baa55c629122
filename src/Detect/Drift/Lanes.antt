-- ===== src/Detect/Drift/Lanes.antt =====
-- src/detect/drift.rs: what a report says of the sums, and what a fix leaves alone.
use flyingsquirrel.Base.{ℕ, ◌≤◌, ◌≡◌, ◌⊎◌, Bool, true, false, Option, none, some, arith}
use flyingsquirrel.Base.Floats.{Floats, Laws, nought}
use flyingsquirrel.Detect.Residual.{Residual}
use flyingsquirrel.Detect.Drift.{
  DriftReason, north_positive, north_negative, east_positive, east_negative, magnitude,
  velocity_aiding, CusumState, DriftDetector, sample_of, sample_finite, warmup_fixes, thresholds,
  reason, update_floors, accumulate, armed_step, evaluate,
}

module _ (F : Floats) where
  open F use {F32, f32}

  -- The sum that a reason names, and the threshold that it is held to.
  abbrev pub lane_sum : DriftReason → CusumState F → F32
  lane_sum north_positive st = st.s_pos_n
  lane_sum north_negative st = st.s_neg_n
  lane_sum east_positive st = st.s_pos_e
  lane_sum east_negative st = st.s_neg_e
  lane_sum magnitude st = st.s_mag
  lane_sum velocity_aiding st = st.s_vel_aiding

  abbrev pub lane_threshold : DriftReason → F32 → F32 → F32 → F32
  lane_threshold magnitude h h_mag h_vel = h_mag
  lane_threshold velocity_aiding h h_mag h_vel = h_vel
  lane_threshold _ h h_mag h_vel = h

  abbrev pub Over : CusumState F → F32 → F32 → F32 → DriftReason → Type 0
  Over st h h_mag h_vel x = f32.le (lane_threshold x h h_mag h_vel) (lane_sum x st) ≡ true

  reason-Over :
      (st : CusumState F) (h h_mag h_vel : F32) (x : DriftReason)
      → reason F st h h_mag h_vel ≡ some x
      → Over st h h_mag h_vel x
  unfolding reason
  reason-Over st h h_mag h_vel north_positive e = ground arith
  reason-Over st h h_mag h_vel north_negative e = ground arith
  reason-Over st h h_mag h_vel east_positive e = ground arith
  reason-Over st h h_mag h_vel east_negative e = ground arith
  reason-Over st h h_mag h_vel magnitude e = ground arith
  reason-Over st h h_mag h_vel velocity_aiding e = ground arith

  reason-none :
      (st : CusumState F) (h h_mag h_vel : F32) (x : DriftReason)
      → reason F st h h_mag h_vel ≡ none
      → f32.le (lane_threshold x h h_mag h_vel) (lane_sum x st) ≡ false
  unfolding reason
  reason-none st h h_mag h_vel north_positive e = ground arith
  reason-none st h h_mag h_vel north_negative e = ground arith
  reason-none st h h_mag h_vel east_positive e = ground arith
  reason-none st h h_mag h_vel east_negative e = ground arith
  reason-none st h h_mag h_vel magnitude e = ground arith
  reason-none st h h_mag h_vel velocity_aiding e = ground arith

  -- A reported reason is true: it names a sum that is at or over its threshold behind the fix, the
  -- fix is finite, and the detector was armed.
  pub evaluate_reports :
      (m : DriftDetector F) (r : Residual F) (hdop : Option F32) (sats : Option ℕ) (x : DriftReason)
      → (evaluate F m r hdop sats).1 ≡ some x
      → let (h, h_mag) = thresholds F m.cfg hdop sats in
        (sample_finite F (sample_of F r) ≡ true)
        × (warmup_fixes ≤ m.warmup)
        × Over (evaluate F m r hdop sats).0.state h h_mag m.cfg.vel_aiding_cusum_h x
  unfolding evaluate
  evaluate_reports m r hdop sats x e =
      let k = armed_step F m (sample_of F r) in
      let limits = thresholds F m.cfg hdop sats in
      ground (arith, reason-Over k.state limits.0 limits.1 m.cfg.vel_aiding_cusum_h x)

  -- No alarm is missed: a finite fix of an armed detector that reports nothing leaves each of the
  -- six sums short of its threshold (a comparison with NaN counts as short).
  pub evaluate_silent :
      (m : DriftDetector F) (r : Residual F) (hdop : Option F32) (sats : Option ℕ) (x : DriftReason)
      → (evaluate F m r hdop sats).1 ≡ none
      → sample_finite F (sample_of F r) ≡ true
      → warmup_fixes ≤ m.warmup
      → let (h, h_mag) = thresholds F m.cfg hdop sats in
        f32.le
          (lane_threshold x h h_mag m.cfg.vel_aiding_cusum_h)
          (lane_sum x (evaluate F m r hdop sats).0.state)
        ≡ false
  unfolding evaluate
  evaluate_silent m r hdop sats x e a b =
      let k = armed_step F m (sample_of F r) in
      let limits = thresholds F m.cfg hdop sats in
      ground (arith, reason-none k.state limits.0 limits.1 m.cfg.vel_aiding_cusum_h x)

  abbrev pub positive : F32 → Bool
  positive x = f32.lt (nought f32) x

  le_of_positive : Laws F → (x : F32) → f32.lt (nought f32) x ≡ true → f32.le x (nought f32) ≡ false
  le_of_positive laws x h = ground (
    arith,
    laws.single.lt_of_lt_le (nought f32) x (nought f32) h,
    laws.single.lt_irrefl (nought f32),
  )

  eq_of_positive : Laws F → (x : F32) → f32.lt (nought f32) x ≡ true → f32.eq x (nought f32) ≡ false
  eq_of_positive laws x h =
      ground (arith, laws.single.le_of_eq x (nought f32), le_of_positive laws x h)

  -- Evidence is not absorbed: across a fix of an armed detector each lane's noise floor is kept, or
  -- no sum of that lane was positive before it. While the sums are zero the floors do learn.
  pub floors_frozen :
      Laws F
      → (m : DriftDetector F) (r : Residual F) (hdop : Option F32) (sats : Option ℕ)
      → warmup_fixes ≤ m.warmup
      → let k = (evaluate F m r hdop sats).0 in
        let st = m.state in
        ((k.mag_noise_ewma ≡ m.mag_noise_ewma) ⊎ (positive st.s_mag ≡ false))
        × ((k.vel_aiding_noise ≡ m.vel_aiding_noise) ⊎ (positive st.s_vel_aiding ≡ false))
        × ((k.axis_noise_n ≡ m.axis_noise_n)
            ⊎ ((positive st.s_pos_n ≡ false) × (positive st.s_neg_n ≡ false)))
        × ((k.axis_noise_e ≡ m.axis_noise_e)
            ⊎ ((positive st.s_pos_e ≡ false) × (positive st.s_neg_e ≡ false)))
  unfolding evaluate armed_step accumulate update_floors
  floors_frozen laws m r hdop sats h =
      let st = m.state in
      (
        ground (arith, le_of_positive laws st.s_mag),
        ground (arith, le_of_positive laws st.s_vel_aiding),
        ground (arith, eq_of_positive laws st.s_pos_n, eq_of_positive laws st.s_neg_n),
        ground (arith, eq_of_positive laws st.s_pos_e, eq_of_positive laws st.s_neg_e),
      )

  -- A forged quality field alone changes nothing: with only one of the two fields present, a fix is
  -- judged as if it carried neither.
  pub lone_quality_inert :
      (m : DriftDetector F) (r : Residual F) (hdop : Option F32) (sats : Option ℕ)
      → (hdop ≡ none) ⊎ (sats ≡ none)
      → evaluate F m r hdop sats ≡ evaluate F m r none none
  unfolding evaluate thresholds
  lone_quality_inert m r hdop sats h = ground arith
