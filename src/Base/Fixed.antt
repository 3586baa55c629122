-- ===== src/Base/Fixed.antt =====
-- A concrete arithmetic to run examples on: numbers in thousandths with a NaN, for both widths.
-- It meets the laws; nothing in the development is proved about it but that.
use mathlib.Core.Bool.{Bool, true, false}
use Prim.Native.Nat.{ℕ, zero, suc, ◌+◌, ◌*◌, ◌/◌, ◌^◌}
use native.Mathlib.Omega.{arith}
use flyingsquirrel.Base.Int.{
  ℤ, pos, negsuc, pos_part, neg_part, sub_ℕ, ◌+ℤ◌, ◌-ℤ◌, ◌*ℤ◌, ltb_ℤ, leb_ℤ,
}
use flyingsquirrel.Base.Tests.{ltb, ◌==◌, if◌then◌else◌}
use flyingsquirrel.Base.Floats.{Float, Floats, FloatLaws, Laws}

pub data Fixed : Type 0 where
  nan : Fixed
  fin : ℤ → Fixed

abbrev op : (ℤ → ℤ → ℤ) → Fixed → Fixed → Fixed
op f (fin a) (fin b) = fin (f a b)
op f _ _ = nan

abbrev test : (ℤ → ℤ → Bool) → Fixed → Fixed → Bool
test f (fin a) (fin b) = f a b
test f _ _ = false

abbrev div_ℕ : ℤ → ℕ → ℤ
div_ℕ (pos a) n = pos (a / n)
div_ℕ (negsuc a) n = sub_ℕ 0 (suc a / n)

abbrev div_ℤ : ℤ → ℤ → ℤ
div_ℤ a (pos b) = div_ℕ a b
div_ℤ a (negsuc b) = pos 0 -ℤ div_ℕ a (suc b)

abbrev divide : Fixed → Fixed → Fixed
divide (fin a) (fin (pos zero)) = nan
divide (fin a) (fin b) = fin (div_ℤ (a *ℤ pos 1000) b)
divide _ _ = nan

abbrev magnitude : Fixed → Fixed
magnitude nan = nan
magnitude (fin a) = fin (pos (pos_part a + neg_part a))

abbrev larger : Fixed → Fixed → Fixed
larger nan b = b
larger (fin a) nan = fin a
larger (fin a) (fin b) = if ltb_ℤ a b then fin b else fin a

abbrev smaller : Fixed → Fixed → Fixed
smaller nan b = b
smaller (fin a) nan = fin a
smaller (fin a) (fin b) = if ltb_ℤ b a then fin b else fin a

abbrev sign : Fixed → Fixed
sign nan = nan
sign (fin (pos _)) = fin (pos 1000)
sign (fin (negsuc _)) = fin (negsuc 999)

unfoldable pub root_from : ℕ → ℕ → ℕ → ℕ
root_from zero n x = x
root_from (suc fuel) n x =
    let y = (x + n / x) / 2 in let better = root_from fuel n y in if ltb y x then better else x

abbrev root : Fixed → Fixed
root (fin (pos n)) = if n == 0 then fin (pos 0) else fin (pos (root_from 64 (n * 1000) (n * 1000)))
root _ = nan

abbrev is_number : Fixed → Bool
is_number nan = false
is_number (fin _) = true

-- The angle functions are taken near zero, where the cosine is 1 and the sine is the angle.
abbrev pub fixed_float : Float Fixed
fixed_float = record {
  lit = λ m k. fin (pos (m * 1000 / 10 ^ k));
  add = op ◌+ℤ◌;
  sub = op ◌-ℤ◌;
  mul = op (λ a b. div_ℕ (a *ℤ b) 1000);
  div = divide;
  neg = op ◌-ℤ◌ (fin (pos 0));
  abs = magnitude;
  max = larger;
  min = smaller;
  sqrt = root;
  sin = λ x. x;
  cos = λ _. fin (pos 1000);
  asin = λ x. x;
  atan2 = divide;
  signum = sign;
  frac_pi_2 = fin (pos 1571);
  to_radians = λ x. x;
  lt = test ltb_ℤ;
  le = test leb_ℤ;
  eq = test (λ a b. pos_part a + neg_part b == pos_part b + neg_part a);
  is_finite = is_number;
  infinity = fin (pos (10 ^ 30));
  of_ℕ = λ n. fin (pos (n * 1000));
  of_ℤ = λ z. fin (z *ℤ pos 1000);
}

abbrev whole : Fixed → ℤ
whole nan = pos 0
whole (fin a) = div_ℕ a 1000

abbrev pub fixed : Floats
fixed = record {
  F32 = Fixed;
  F64 = Fixed;
  f32 = fixed_float;
  f64 = fixed_float;
  narrow = λ x. x;
  widen = λ x. x;
  secs = λ ns. fin (pos (ns / 1000000));
  to_i64 = whole;
  ceil_usize = λ x. pos_part (whole x) + 1;
  to_usize = λ x. pos_part (whole x);
}

fixed_float-FloatLaws : FloatLaws fixed_float
fixed_float-FloatLaws = ground arith

pub fixed-Laws : Laws fixed
fixed-Laws = record { single = fixed_float-FloatLaws; double = fixed_float-FloatLaws }
