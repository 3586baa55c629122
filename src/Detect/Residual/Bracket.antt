-- ===== src/Detect/Residual/Bracket.antt =====
-- src/detect/residual.rs: when `interpolate` fails, and between which snapshots it works.
use flyingsquirrel.Base.{
  ◌≡◌, refl, ◌⊎◌, inl, inr, true, false, List, [], ◌∷◌, some, Bool-cases, if◌then◌else◌, arith,
}
use flyingsquirrel.Base.Floats.{Floats}
use flyingsquirrel.Base.Lists.{get_last?}
use flyingsquirrel.Detect.Residual.{Snapshot, bracket_from}

module _ (F : Floats) where
  open F use {F64, f64, to_i64}

  pub data Consecutive (a b : Snapshot F) : List (Snapshot F) → Type 0 where
    here : {xs : List (Snapshot F)} → Consecutive a b (a ∷ b ∷ xs)
    there :
        {x : Snapshot F} {xs : List (Snapshot F)} → Consecutive a b xs → Consecutive a b (x ∷ xs)

  -- A result for the list behind `x`, seen from one place further in front.
  abbrev Found : F64 → Snapshot F → List (Snapshot F) → Snapshot F × Snapshot F → Type 0
  Found t prev all (a, b) =
      Consecutive a b all
      × (f64.le t b.mono_secs ≡ true)
      × ((a ≡ prev) ⊎ (f64.le t a.mono_secs ≡ false))

  Found-step :
      (t : F64) (prev x : Snapshot F) (xs : List (Snapshot F)) (ab : Snapshot F × Snapshot F)
      → f64.le t x.mono_secs ≡ false
      → Found t x xs ab
      → Found t prev (prev ∷ xs) ab
  Found-step t prev x xs (a, b) c (near, reached, inl e) = (there near, reached, inr (rw e c))
  Found-step t prev x xs (a, b) c (near, reached, inr n) = (there near, reached, inr n)

  -- The scan finds the first snapshot at or past the time: the two snapshots that it returns are
  -- neighbours in the list behind the front, the second is at or past the time, and the first is
  -- either the one that the scan began with or not at or past it. It needs a last snapshot at or
  -- past the time, as `interpolate` has checked.
  pub bracket_from_sound :
      (t : F64) (prev : Snapshot F) (xs : List (Snapshot F)) (last : Snapshot F)
      → get_last? xs ≡ some last
      → f64.le t last.mono_secs ≡ true
      → let (a, b) = bracket_from F t prev xs in
        Consecutive a b (prev ∷ xs)
        × (f64.le t b.mono_secs ≡ true)
        × ((a ≡ prev) ⊎ (f64.le t a.mono_secs ≡ false))
  unfolding bracket_from
  bracket_from_sound t prev [] last e h = ground arith
  bracket_from_sound t prev (x ∷ []) last e h =
      let reached : f64.le t x.mono_secs ≡ true = ground arith in
      rw (reached, if◌then◌else◌) (here, reached, inl refl)
  bracket_from_sound t prev (x ∷ y ∷ ys) last e h =
      let rest = bracket_from_sound t x (y ∷ ys) last e h in
      elim (Bool-cases (f64.le t x.mono_secs)) [
        | inl c ↦ rw (c, if◌then◌else◌) (here, c, inl refl)
        | inr c ↦
            rw (c, if◌then◌else◌)
              (Found-step t prev x (x ∷ y ∷ ys) (bracket_from F t x (y ∷ ys)) c rest)
      ]
