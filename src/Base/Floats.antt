-- ===== src/Base/Floats.antt =====
-- Floating-point arithmetic as the code uses it: `f32` and `f64` with the operations of Rust's
-- standard library, as a record that every definition takes as a parameter. `Laws` names the facts of
-- IEEE 754 that proofs use; each holds for all values, NaN and the infinities included.
use mathlib.Core.Path.{◌≡◌}
use mathlib.Core.Bool.{Bool, true, false}
use Prim.Native.Nat.{ℕ}
use flyingsquirrel.Base.Int.{ℤ}
use flyingsquirrel.Base.Tests.{if◌then◌else◌}

-- One width. `lit m k` is the literal m / 10^k; `lt`, `le` and `eq` are false at a NaN; `max` and
-- `min` are `f32::max` and `f32::min`, which drop a NaN; `frac_pi_2` is `FRAC_PI_2`.
pub record Float (A : Type 0) : Type 0 where
  pub lit : ℕ → ℕ → A
  pub add : A → A → A
  pub sub : A → A → A
  pub mul : A → A → A
  pub div : A → A → A
  pub neg : A → A
  pub abs : A → A
  pub max : A → A → A
  pub min : A → A → A
  pub sqrt : A → A
  pub sin : A → A
  pub cos : A → A
  pub asin : A → A
  pub atan2 : A → A → A
  pub signum : A → A
  pub frac_pi_2 : A
  pub to_radians : A → A
  pub lt : A → A → Bool
  pub le : A → A → Bool
  pub eq : A → A → Bool
  pub is_finite : A → Bool
  pub infinity : A
  pub of_ℕ : ℕ → A
  pub of_ℤ : ℤ → A

-- Both widths, the casts `as f32` and `as f64`, `Duration::as_secs_f64` of nanoseconds, and
-- the casts to integers.
pub record Floats : Type 1 where
  pub F32 : Type 0
  pub F64 : Type 0
  pub f32 : Float F32
  pub f64 : Float F64
  pub narrow : F64 → F32
  pub widen : F32 → F64
  pub secs : ℕ → F64
  pub to_i64 : F64 → ℤ
  pub ceil_usize : F64 → ℕ
  pub to_usize : F64 → ℕ

abbrev pub nought : {A : Type 0} → Float A → A
nought f = f.lit 0 0

-- `clamp(lo, hi)`.
abbrev pub clamp : {A : Type 0} → Float A → A → A → A → A
clamp f x lo hi = if f.lt x lo then lo else if f.lt hi x then hi else x

pub record FloatLaws {A : Type 0} (f : Float A) : Type 0 where
  pub lt_irrefl : (a : A) → f.lt a a ≡ false
  pub lt_trans : (a b c : A) → f.lt a b ≡ true → f.lt b c ≡ true → f.lt a c ≡ true
  pub le_trans : (a b c : A) → f.le a b ≡ true → f.le b c ≡ true → f.le a c ≡ true
  pub le_of_lt : (a b : A) → f.lt a b ≡ true → f.le a b ≡ true
  pub lt_of_lt_le : (a b c : A) → f.lt a b ≡ true → f.le b c ≡ true → f.lt a c ≡ true
  pub lt_of_le_lt : (a b c : A) → f.le a b ≡ true → f.lt b c ≡ true → f.lt a c ≡ true
  pub refl_of_lt : (a b : A) → f.lt a b ≡ true → (f.le a a ≡ true) × (f.le b b ≡ true)
  pub le_of_eq : (a b : A) → f.eq a b ≡ true → f.le a b ≡ true
  pub lt_of_not_le :
      (a b : A) → f.le a a ≡ true → f.le b b ≡ true → f.le b a ≡ false → f.lt a b ≡ true
  pub nought_le : f.le (nought f) (nought f) ≡ true
  pub le_max_right : (a b : A) → f.le b b ≡ true → f.le b (f.max a b) ≡ true
  pub le_max_left : (a b : A) → f.le a a ≡ true → f.le a (f.max a b) ≡ true

pub record Laws (F : Floats) : Type 0 where
  pub single : FloatLaws F.f32
  pub double : FloatLaws F.f64
