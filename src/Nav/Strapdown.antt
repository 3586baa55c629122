-- ===== src/Nav/Strapdown.antt =====
-- src/nav/strapdown.rs: `Strapdown` and `BiasEstimator`.
use flyingsquirrel.Base.{Bool, ◌&&◌, Option, none, some, if◌then◌else◌, unwrap_or}
use flyingsquirrel.Base.Floats.{Floats, nought}
use flyingsquirrel.Types.{NedPos, NedVel}
use flyingsquirrel.Nav.Attitude.{Vec3}

module _ (F : Floats) where
  open F use {F32, F64, f32, f64, widen}

  infixl 65 ◌⊕◌ ◌⊖◌
  infixl 70 ◌⊗◌
  abbrev ◌⊕◌ : F64 → F64 → F64
  a ⊕ b = f64.add a b

  abbrev ◌⊖◌ : F64 → F64 → F64
  a ⊖ b = f64.sub a b

  abbrev ◌⊗◌ : F64 → F64 → F64
  a ⊗ b = f64.mul a b

  abbrev half : F64
  half = f64.lit 5 1

  -- `[f64; 3]`, in the NED frame.
  pub record NedAccel : Type 0 where
    pub n : F64
    pub e : F64
    pub d : F64

  pub record Strapdown : Type 0 where
    pub pos : NedPos F
    pub vel : NedVel F
    pub last_a : Option NedAccel

  abbrev pub origin_pos : NedPos F
  origin_pos = record { n = nought f64; e = nought f64; d = nought f64 }

  abbrev pub at_rest : NedVel F
  at_rest = record { n = nought f64; e = nought f64; d = nought f64 }

  -- `Strapdown::new`, and the state after `reset`.
  abbrev pub new : Strapdown
  new = record { pos = origin_pos; vel = at_rest; last_a = none }

  unfoldable pub set_pos : Strapdown → NedPos F → Strapdown
  set_pos s p = record s { pos = p }

  unfoldable pub set_vel : Strapdown → NedVel F → Strapdown
  set_vel s v = record s { vel = v }

  unfoldable pub reset : Strapdown → Strapdown
  reset s = new

  unfoldable pub integrate : Strapdown → NedAccel → F32 → Strapdown
  integrate s a dt =
      let t = widen dt in
      let prev = unwrap_or s.last_a a in
      let v0 = s.vel in
      let v : NedVel F = record {
        n = v0.n ⊕ half ⊗ (prev.n ⊕ a.n) ⊗ t;
        e = v0.e ⊕ half ⊗ (prev.e ⊕ a.e) ⊗ t;
        d = v0.d ⊕ half ⊗ (prev.d ⊕ a.d) ⊗ t;
      } in
      record {
        pos = record {
          n = s.pos.n ⊕ half ⊗ (v0.n ⊕ v.n) ⊗ t;
          e = s.pos.e ⊕ half ⊗ (v0.e ⊕ v.e) ⊗ t;
          d = s.pos.d ⊕ half ⊗ (v0.d ⊕ v.d) ⊗ t;
        };
        vel = v;
        last_a = some a;
      }

  pub record BiasEstimator : Type 0 where
    pub alpha : F32
    pub accel_ned : NedAccel
    pub gyro : Vec3 F
    pub low_motion_secs : F32
    pub window_target_s : F32
    pub g_norm : F32

  unfoldable pub bias_new : F32 → F32 → BiasEstimator
  bias_new alpha window_target_s = record {
    alpha = alpha;
    accel_ned = record { n = nought f64; e = nought f64; d = nought f64 };
    gyro = record { x = nought f32; y = nought f32; z = nought f32 };
    low_motion_secs = nought f32;
    window_target_s = window_target_s;
    g_norm = f32.lit 980665 5;
  }

  -- `(1 − a) * bias + a * (bias + corrected)`.
  abbrev toward : F64 → F64 → F64 → F64
  toward a bias corrected = (f64.lit 1 0 ⊖ a) ⊗ bias ⊕ a ⊗ (bias ⊕ corrected)

  unfoldable pub correct_and_update_accel_ned :
      BiasEstimator → NedAccel → Bool → BiasEstimator × NedAccel
  correct_and_update_accel_ned b a_lin allow_update =
      let c : NedAccel = record {
        n = a_lin.n ⊖ b.accel_ned.n;
        e = a_lin.e ⊖ b.accel_ned.e;
        d = a_lin.d ⊖ b.accel_ned.d;
      } in
      let a = widen b.alpha in
      let absorbed = record b {
        accel_ned = record {
          n = toward a b.accel_ned.n c.n;
          e = toward a b.accel_ned.e c.e;
          d = toward a b.accel_ned.d c.d;
        };
      } in
      (if allow_update && f32.le b.window_target_s b.low_motion_secs then absorbed else b, c)

  abbrev norm : Vec3 F → F32
  norm v = f32.sqrt (f32.add (f32.add (f32.mul v.x v.x) (f32.mul v.y v.y)) (f32.mul v.z v.z))

  abbrev average : F32 → F32 → F32 → F32
  average alpha bias g = f32.add (f32.mul (f32.sub (f32.lit 1 0) alpha) bias) (f32.mul alpha g)

  unfoldable pub observe : BiasEstimator → Vec3 F → Vec3 F → F32 → Bool → BiasEstimator
  observe b accel gyro dt allow =
      let quiet =
        f32.lt (norm gyro) (f32.lit 5 2)
        && f32.lt (f32.abs (f32.sub (norm accel) b.g_norm)) (f32.lit 3 1) in
      let secs = f32.add b.low_motion_secs dt in
      let longer = record b { low_motion_secs = secs } in
      let learned = record longer {
        gyro = record {
          x = average b.alpha b.gyro.x gyro.x;
          y = average b.alpha b.gyro.y gyro.y;
          z = average b.alpha b.gyro.z gyro.z;
        };
      } in
      if quiet && allow
      then if f32.le b.window_target_s secs then learned else longer
      else record b { low_motion_secs = nought f32 }
