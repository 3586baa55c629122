-- ===== src/Nav/DeadReckoner/Gate.antt =====
-- src/nav/mod.rs: the gate on the IMU's gaps that the static initialisation of `DeadReckoner::step` may widen.
use flyingsquirrel.Base.{
  ℕ, ◌+◌, ◌-◌, ◌≡◌, refl, sym, ◌∙◌, ◌⊎◌, inl, inr, true, false, not, List, [], ◌∷◌, Option, none,
  some, arith, leb, if◌then◌else◌, Bool-cases,
}
use mathlib.Core.Path.{subst}
use flyingsquirrel.Base.Floats.{Floats, Laws, clamp}
use flyingsquirrel.Nav.Reckoner.{ImuSample}
use flyingsquirrel.Nav.Config.{NavConfig}
use flyingsquirrel.Nav.Attitude.{Quaternion, Vec3}
use flyingsquirrel.Nav.DeadReckoner.{DeadReckoner, new}
use flyingsquirrel.Nav.DeadReckoner.Imu.{
  Stepped, step, static_init, finish_init, init_target, accumulate, derive_gate, widened_gate,
  default_max_imu_dt_s, auto_imu_gate_max_s, sample_is_finite,
}
use flyingsquirrel.Nav.DeadReckoner.Warmup.{starting, step-starting, steps}
use flyingsquirrel.Nav.DeadReckoner.Isolation.{step-Kept}

module _ (F : Floats) where
  open F use {F32, F64, f32, f64, secs, narrow}

  -- A gate g' derived from g: the same, or wider and at most a second.
  abbrev pub Widened : F32 → F32 → Type 0
  Widened g g' = (g' ≡ g) ⊎ ((f32.lt g g' ≡ true) × (f32.lt (auto_imu_gate_max_s F) g' ≡ false))

  module _ (laws : Laws F)
      (ordered : f32.lt (auto_imu_gate_max_s F) (default_max_imu_dt_s F) ≡ false) where
    clamp-bounded :
        (x : F32)
        → f32.lt
            (auto_imu_gate_max_s F)
            (clamp f32 x (default_max_imu_dt_s F) (auto_imu_gate_max_s F))
          ≡ false
    clamp-bounded x =
        let same = laws.single.lt_irrefl (auto_imu_gate_max_s F) in ground (arith, same, ordered)

    derive_gate-Widened :
        (gate : F32) (count : ℕ) (first : Option F64) (last : F64)
        → Widened gate (derive_gate F gate count first last)
    unfolding derive_gate widened_gate
    derive_gate-Widened gate count none last = inl refl
    derive_gate-Widened gate count (some first) last =
        let period = f32.div (narrow (f64.sub last first)) (f32.of_ℕ (count - 1)) in
        let bound = clamp-bounded (f32.mul (f32.lit 25 1) period) in ground (arith, bound)

  module _ (body_to_ned ned_to_body : Quaternion F → Vec3 F → Vec3 F) where
    abbrev stepped : DeadReckoner F → ImuSample F → DeadReckoner F × Stepped F
    stepped = step F body_to_ned ned_to_body

    -- The gate configured, until the initialisation ends, and then one derived from it.
    abbrev Gated : F32 → DeadReckoner F → Type 0
    Gated g r =
        ((r.initialized ≡ false) × (r.cfg.max_imu_dt_s ≡ g))
        ⊎ ((r.initialized ≡ true) × Widened g r.cfg.max_imu_dt_s)

    module _ (laws : Laws F)
        (ordered : f32.lt (auto_imu_gate_max_s F) (default_max_imu_dt_s F) ≡ false) where
      static_init-Gated :
          (g : F32) (r : DeadReckoner F) (s : ImuSample F) (t : F64)
          → r.initialized ≡ false
          → r.cfg.max_imu_dt_s ≡ g
          → Gated g (static_init F r s t)
      unfolding static_init finish_init accumulate
      static_init-Gated g r s t init e =
          let more = accumulate F r s t in
          let wide =
            derive_gate-Widened laws ordered r.cfg.max_imu_dt_s more.static_init_accum
              more.static_init_first_mono t in
          elim (Bool-cases (leb (init_target F r) (r.static_init_accum + 1))) [
            | inl c ↦
                rw (c, if◌then◌else◌)
                  (inr
                    (refl, subst (λ g. Widened g (finish_init F more t).cfg.max_imu_dt_s) e wide))
            | inr c ↦ rw (c, if◌then◌else◌) (inl (init, e))
          ]

      starting-Gated :
          (g : F32) (r : DeadReckoner F) (s : ImuSample F)
          → r.initialized ≡ false
          → r.cfg.max_imu_dt_s ≡ g
          → Gated g (starting F body_to_ned ned_to_body r s).0
      unfolding starting
      starting-Gated g r s init e = elim (Bool-cases (sample_is_finite F s)) [
        | inl c ↦ rw (c, not, if◌then◌else◌) (static_init-Gated g r s (secs s.mono_ns) init e)
        | inr c ↦ rw (c, not, if◌then◌else◌) (inl (init, e))
      ]

      step-Gated :
          (g : F32) (r : DeadReckoner F) (s : ImuSample F) → Gated g r → Gated g (stepped r s).0
      step-Gated g r s (inl (init, e)) =
          rw (step-starting F body_to_ned ned_to_body r s init) (starting-Gated g r s init e)
      step-Gated g r s (inr (init, wide)) =
          let kept = step-Kept F body_to_ned ned_to_body r s init in
          inr (kept.2 ∙ init, subst (λ c. Widened g c.max_imu_dt_s) (sym (kept.4)) wide)

      steps-Gated :
          (g : F32) (r : DeadReckoner F) (ss : List (ImuSample F))
          → Gated g r
          → Gated g (steps F body_to_ned ned_to_body r ss)
      unfolding steps
      steps-Gated g r [] h = h
      steps-Gated g r (s ∷ ss) h = steps-Gated g (stepped r s).0 ss (step-Gated g r s h)

      -- The gate on the gap between two samples is only ever widened, and never past a second: behind any
      -- samples at all, whatever their times, it is the one configured, or greater than that and not
      -- greater than 1 s (in an arithmetic where 1.0 < 0.1 is false).
      pub gate-Widened :
          (cfg : NavConfig F) (ss : List (ImuSample F))
          → Widened cfg.max_imu_dt_s
              (steps F body_to_ned ned_to_body (new F cfg) ss).cfg.max_imu_dt_s
      unfolding new
      gate-Widened cfg ss = elim (steps-Gated cfg.max_imu_dt_s (new F cfg) ss (inl (refl, refl))) [
        | inl (init, e) ↦ inl e
        | inr (init, wide) ↦ wide
      ]
