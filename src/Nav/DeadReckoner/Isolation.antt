-- ===== src/Nav/DeadReckoner/Isolation.antt =====
-- src/nav/mod.rs: that a `DeadReckoner` frozen against GPS is independent of it.
use flyingsquirrel.Base.{
  ◌≡◌, refl, sym, ap, ◌∙◌, inl, inr, true, false, not, ◌&&◌, List, [], ◌∷◌, Option, none, some,
  arith, if◌then◌else◌, Bool-cases, is_some,
}
use flyingsquirrel.Base.Floats.{Floats}
use flyingsquirrel.Types.{GpsFix}
use flyingsquirrel.Nav.Reckoner.{ImuSample}
use flyingsquirrel.Nav.Attitude.{Quaternion, Vec3}
use flyingsquirrel.Nav.DeadReckoner.{DeadReckoner, on_gps_fix, seed_yaw, do_blend, is_initialized}
use flyingsquirrel.Nav.DeadReckoner.Imu.{
  Stepped, ImuDt, step, advance, propagate, track_attitude, lin_accel, skip_gap, static_init,
  imu_dt, sample_is_finite,
}

module _ (F : Floats) where
  open F use {F32, F64, secs}

  -- What reaches the reckoner.
  pub data Input : Type 0 where
    imu : ImuSample F → Input
    gps : GpsFix F → Input

  -- The reckoner under attack: anchored, its heading seeded, and frozen against GPS.
  abbrev pub IsFrozen : DeadReckoner F → Type 0
  IsFrozen r =
      (r.anchor_locked ≡ true)
      × (r.yaw_seeded_from_gps ≡ true)
      × (r.initialized ≡ true)
      × (do_blend F r ≡ false)

  -- All but the time of the last fix.
  abbrev pub inertial : DeadReckoner F → DeadReckoner F
  inertial r = record r { last_gps_mono = none }

  seeded_once :
      (r : DeadReckoner F) (course speed : Option F64)
      → r.yaw_seeded_from_gps ≡ true
      → seed_yaw F r course speed ≡ r
  unfolding seed_yaw
  seeded_once r none speed h = refl
  seeded_once r (some c) none h = refl
  seeded_once r (some c) (some s) h = ground arith

  fix-inertial :
      (r : DeadReckoner F) (fix : GpsFix F)
      → IsFrozen r
      → on_gps_fix F r fix ≡ record r { last_gps_mono = some (secs fix.mono_ns) }
  unfolding on_gps_fix
  fix-inertial r fix (locked, yaw, init, freeze) =
      let timed = record r { last_gps_mono = some (secs fix.mono_ns) } in
      let once = seeded_once timed fix.course_deg fix.speed_mps yaw in ground (arith, once)

  module _ (body_to_ned ned_to_body : Quaternion F → Vec3 F → Vec3 F) where
    abbrev stepped : DeadReckoner F → ImuSample F → DeadReckoner F × Stepped F
    stepped = step F body_to_ned ned_to_body

    propagate-inertial :
        (r : DeadReckoner F) (s : ImuSample F) (t : F64) (d : F32)
        → let p = propagate F body_to_ned ned_to_body in
          (inertial (p r s t d).0 ≡ (p (inertial r) s t d).0)
          × ((p r s t d).1 ≡ (p (inertial r) s t d).1)
    unfolding propagate track_attitude lin_accel is_initialized
    propagate-inertial r s t d = elim (Bool-cases (r.initialized && is_some r.origin)) [
      | inl c ↦ rw (c, if◌then◌else◌) (refl, refl)
      | inr c ↦ rw (c, if◌then◌else◌) (refl, refl)
    ]

    advance-inertial :
        (r : DeadReckoner F) (s : ImuSample F) (t : F64) (d : ImuDt F)
        → let p = advance F body_to_ned ned_to_body in
          (inertial (p r s t d).0 ≡ (p (inertial r) s t d).0)
          × ((p r s t d).1 ≡ (p (inertial r) s t d).1)
    unfolding advance skip_gap
    advance-inertial r s t ImuDt.no_progress = (refl, refl)
    advance-inertial r s t ImuDt.gap = (refl, refl)
    advance-inertial r s t (ImuDt.elapsed d) = propagate-inertial _ s t d

    -- A step behind the static initialisation.
    unfoldable pub running : DeadReckoner F → ImuSample F → DeadReckoner F × Stepped F
    running r s =
        let now = secs s.mono_ns in
        let d = imu_dt F r.last_imu_mono now r.cfg.max_imu_dt_s in
        if not (sample_is_finite F s)
        then (r, Stepped.non_finite)
        else advance F body_to_ned ned_to_body r s now d

    pub step-running :
        (r : DeadReckoner F) (s : ImuSample F) → r.initialized ≡ true → stepped r s ≡ running r s
    unfolding step running
    step-running r s init =
        let now = secs s.mono_ns in
        let d = imu_dt F r.last_imu_mono now r.cfg.max_imu_dt_s in
        ap
          (λ b.
            if not (sample_is_finite F s)
            then (r, Stepped.non_finite)
            else if not b
            then (static_init F r s now, Stepped.ok none)
            else advance F body_to_ned ned_to_body r s now d)
          init

    running-inertial :
        (r : DeadReckoner F) (s : ImuSample F)
        → (inertial (running r s).0 ≡ (running (inertial r) s).0)
          × ((running r s).1 ≡ (running (inertial r) s).1)
    unfolding running
    running-inertial r s = elim (Bool-cases (sample_is_finite F s)) [
      | inl c ↦ rw (c, if◌then◌else◌, not) (advance-inertial r s _ _)
      | inr c ↦ rw (c, if◌then◌else◌, not) (refl, refl)
    ]

    step-inertial :
        (r : DeadReckoner F) (s : ImuSample F)
        → r.initialized ≡ true
        → (inertial (stepped r s).0 ≡ (stepped (inertial r) s).0)
          × ((stepped r s).1 ≡ (stepped (inertial r) s).1)
    step-inertial r s init =
        rw (step-running r s init, step-running (inertial r) s init) (running-inertial r s)

    abbrev pub Kept : DeadReckoner F → DeadReckoner F → Type 0
    Kept r r' =
        (r'.anchor_locked ≡ r.anchor_locked)
        × (r'.yaw_seeded_from_gps ≡ r.yaw_seeded_from_gps)
        × (r'.initialized ≡ r.initialized)
        × (do_blend F r' ≡ do_blend F r)
        × (r'.cfg ≡ r.cfg)

    propagate-Kept :
        (r : DeadReckoner F) (s : ImuSample F) (t : F64) (d : F32)
        → Kept r (propagate F body_to_ned ned_to_body r s t d).0
    unfolding propagate track_attitude is_initialized
    propagate-Kept r s t d = elim (Bool-cases (r.initialized && is_some r.origin)) [
      | inl c ↦ rw (c, if◌then◌else◌) (refl, refl, refl, refl, refl)
      | inr c ↦ rw (c, if◌then◌else◌) (refl, refl, refl, refl, refl)
    ]

    advance-Kept :
        (r : DeadReckoner F) (s : ImuSample F) (t : F64) (d : ImuDt F)
        → Kept r (advance F body_to_ned ned_to_body r s t d).0
    unfolding advance skip_gap
    advance-Kept r s t ImuDt.no_progress = (refl, refl, refl, refl, refl)
    advance-Kept r s t ImuDt.gap = (refl, refl, refl, refl, refl)
    advance-Kept r s t (ImuDt.elapsed d) = propagate-Kept _ s t d

    running-Kept : (r : DeadReckoner F) (s : ImuSample F) → Kept r (running r s).0
    unfolding running
    running-Kept r s = elim (Bool-cases (sample_is_finite F s)) [
      | inl c ↦ rw (c, if◌then◌else◌, not) (advance-Kept r s _ _)
      | inr c ↦ rw (c, if◌then◌else◌, not) (refl, refl, refl, refl, refl)
    ]

    pub step-Kept :
        (r : DeadReckoner F) (s : ImuSample F) → r.initialized ≡ true → Kept r (stepped r s).0
    step-Kept r s init = rw (step-running r s init) (running-Kept r s)

    step-IsFrozen : (r : DeadReckoner F) (s : ImuSample F) → IsFrozen r → IsFrozen (stepped r s).0
    step-IsFrozen r s (locked, yaw, init, freeze) =
        let (l, y, i, b, _) = step-Kept r s init in (l ∙ locked, y ∙ yaw, i ∙ init, b ∙ freeze)

    -- A run: each sample's result, in order.
    unfoldable pub run : DeadReckoner F → List Input → DeadReckoner F × List (Stepped F)
    run r [] = (r, [])
    run r (Input.gps fix ∷ is) = run (on_gps_fix F r fix) is
    run r (Input.imu s ∷ is) =
        let now = stepped r s in let rest = run now.0 is in (rest.0, now.1 ∷ rest.1)

    abbrev pub without_gps : List Input → List Input
    without_gps [] = []
    without_gps (Input.gps _ ∷ is) = without_gps is
    without_gps (Input.imu s ∷ is) = Input.imu s ∷ without_gps is

    run-inertial :
        (a b : DeadReckoner F) (is : List Input)
        → IsFrozen a
        → IsFrozen b
        → inertial a ≡ inertial b
        → (inertial (run a is).0 ≡ inertial (run b (without_gps is)).0)
          × ((run a is).1 ≡ (run b (without_gps is)).1)
    unfolding run
    run-inertial a b [] fa fb e = (e, refl)
    run-inertial a b (Input.gps fix ∷ is) fa fb e =
        let timed = fix-inertial a fix fa in
        let fa' : IsFrozen (on_gps_fix F a fix) = rw timed fa in
        run-inertial (on_gps_fix F a fix) b is fa' fb (ap inertial timed ∙ e)
    run-inertial a b (Input.imu s ∷ is) fa fb e =
        let (a0, a1) = step-inertial a s (fa.2) in
        let (b0, b1) = step-inertial b s (fb.2) in
        let e0 = a0 ∙ (ap (λ r. (stepped r s).0) e ∙ sym b0) in
        let e1 = a1 ∙ (ap (λ r. (stepped r s).1) e ∙ sym b1) in
        let (ih0, ih1) =
          run-inertial (stepped a s).0 (stepped b s).0 is (step-IsFrozen a s fa)
            (step-IsFrozen b s fb) e0 in
        (ih0, rw (e1, ih1) refl)

    -- While the reckoner is anchored, its heading seeded, and it is frozen against GPS (the detector is
    -- not in Normal and freezing is configured), any number of GPS fixes among the samples changes
    -- nothing that the IMU alone would give: every step's result is the same as without the fixes, and so
    -- is the whole state afterwards, but for the time of the last fix.
    pub run-without_gps :
        (r : DeadReckoner F) (is : List Input)
        → IsFrozen r
        → (inertial (run r is).0 ≡ inertial (run r (without_gps is)).0)
          × ((run r is).1 ≡ (run r (without_gps is)).1)
    run-without_gps r is f = run-inertial r r is f f refl
