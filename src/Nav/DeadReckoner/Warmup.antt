-- ===== src/Nav/DeadReckoner/Warmup.antt =====
-- src/nav/mod.rs: the static initialisation of `DeadReckoner::step`.
use flyingsquirrel.Base.{
  ℕ, ◌+◌, ◌<◌, ◌≡◌, refl, ap, ◌∙◌, ◌⊎◌, inl, inr, true, false, not, List, [], ◌∷◌, none, arith, leb,
  if◌then◌else◌, Bool-cases,
}
use flyingsquirrel.Base.Floats.{Floats}
use flyingsquirrel.Base.Lists.{length, All}
use flyingsquirrel.Nav.Reckoner.{ImuSample}
use flyingsquirrel.Nav.Config.{NavConfig}
use flyingsquirrel.Nav.Attitude.{Quaternion, Vec3}
use flyingsquirrel.Nav.DeadReckoner.{DeadReckoner, new}
use flyingsquirrel.Nav.DeadReckoner.Imu.{
  Stepped, step, static_init, finish_init, init_target, accumulate, sample_is_finite, imu_dt,
  advance,
}
use flyingsquirrel.Nav.DeadReckoner.Isolation.{step-Kept}

module _ (F : Floats) where
  open F use {F32, F64, f32, f64, secs, narrow}

  module _ (body_to_ned ned_to_body : Quaternion F → Vec3 F → Vec3 F) where
    abbrev stepped : DeadReckoner F → ImuSample F → DeadReckoner F × Stepped F
    stepped = step F body_to_ned ned_to_body

    -- The state behind the samples.
    unfoldable pub steps : DeadReckoner F → List (ImuSample F) → DeadReckoner F
    steps r [] = r
    steps r (s ∷ ss) = steps (stepped r s).0 ss

    unfoldable pub starting : DeadReckoner F → ImuSample F → DeadReckoner F × Stepped F
    starting r s =
        let now = secs s.mono_ns in
        if not (sample_is_finite F s)
        then (r, Stepped.non_finite)
        else (static_init F r s now, Stepped.ok none)

    pub step-starting :
        (r : DeadReckoner F) (s : ImuSample F) → r.initialized ≡ false → stepped r s ≡ starting r s
    unfolding step starting
    step-starting r s init =
        let now = secs s.mono_ns in
        let d = imu_dt F r.last_imu_mono now r.cfg.max_imu_dt_s in
        ap
          (λ b.
            if not (sample_is_finite F s)
            then (r, Stepped.non_finite)
            else if not b
            then (static_init F r s now, Stepped.ok none)
            else advance F body_to_ned ned_to_body r s now d)
          init

    -- The reckoner has taken n of the target's samples, and is not yet initialised.
    abbrev Warming : ℕ → ℕ → DeadReckoner F → Type 0
    Warming n target r =
        (r.initialized ≡ false)
        × (r.static_init_accum ≡ n)
        × (init_target F r ≡ target)
        × (n < target)

    init_target-accumulate :
        (r : DeadReckoner F) (s : ImuSample F) (t : F64)
        → 0 < init_target F r
        → init_target F (accumulate F r s t) ≡ init_target F r
    unfolding accumulate init_target
    init_target-accumulate r s t h = ground arith

    static_init-Warming :
        (r : DeadReckoner F) (s : ImuSample F) (t : F64) (n target : ℕ)
        → Warming n target r
        → Warming (n + 1) target (static_init F r s t)
          ⊎ ((target ≡ n + 1) × ((static_init F r s t).initialized ≡ true))
    unfolding static_init finish_init accumulate
    static_init-Warming r s t n target (init, count, aim, less) =
        elim (Bool-cases (leb (init_target F r) (r.static_init_accum + 1))) [
          | inl c ↦ inr (ground (arith, c), rw (c, if◌then◌else◌) refl)
          | inr c ↦
              let again = init_target-accumulate r s t (omega (arith, aim, less)) in
              rw (c, if◌then◌else◌)
                (inl (init, omega (arith, count), again ∙ aim, ground (arith, c)))
        ]

    steps-initialized :
        (r : DeadReckoner F) (ss : List (ImuSample F))
        → r.initialized ≡ true
        → (steps r ss).initialized ≡ true
    unfolding steps
    steps-initialized r [] h = h
    steps-initialized r (s ∷ ss) h =
        let kept = step-Kept F body_to_ned ned_to_body r s h in
        steps-initialized (stepped r s).0 ss (kept.2 ∙ h)

    step-Warming :
        (r : DeadReckoner F) (s : ImuSample F) (n target : ℕ)
        → Warming n target r
        → sample_is_finite F s ≡ true
        → Warming (n + 1) target (stepped r s).0
          ⊎ ((target ≡ n + 1) × ((stepped r s).0.initialized ≡ true))
    unfolding starting
    step-Warming r s n target w fin =
        rw (step-starting r s w.0, fin, not, if◌then◌else◌)
          (static_init-Warming r s (secs s.mono_ns) n target w)

    steps-Warming :
        (r : DeadReckoner F) (ss : List (ImuSample F)) (n target : ℕ)
        → Warming n target r
        → All (λ s. sample_is_finite F s ≡ true) ss
        → (steps r ss).initialized ≡ leb target (n + length ss)
    unfolding steps
    steps-Warming r [] n target w fin = w.0 ∙ ground (arith, w)
    steps-Warming r (s ∷ ss) n target w (fin, fins) = elim (step-Warming r s n target w fin) [
      | inl w' ↦
          let ih = steps-Warming (stepped r s).0 ss (n + 1) target w' fins in
          ih ∙ ap (λ k. leb target k) (omega arith)
      | inr (e, done) ↦ steps-initialized (stepped r s).0 ss done ∙ ground (arith, e)
    ]

    -- Static initialisation takes exactly the samples that the configuration asks for: from a new
    -- reckoner on, with finite samples, it is done once their number has reached the target, and not
    -- before (the target being positive, as it is at least 10 unless the cast yields 0).
    pub steps-new :
        (cfg : NavConfig F) (ss : List (ImuSample F))
        → 0 < init_target F (new F cfg)
        → All (λ s. sample_is_finite F s ≡ true) ss
        → (steps (new F cfg) ss).initialized ≡ leb (init_target F (new F cfg)) (length ss)
    unfolding new
    steps-new cfg ss positive fin =
        steps-Warming (new F cfg) ss 0 (init_target F (new F cfg)) (refl, refl, refl, positive) fin
        ∙ ap (λ k. leb (init_target F (new F cfg)) k) (omega arith)
