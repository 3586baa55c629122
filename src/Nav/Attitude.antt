-- ===== src/Nav/Attitude.antt =====
-- src/nav/attitude.rs: the `Madgwick` filter. A quaternion is (w, i, j, k), as `Quaternion::new` takes it.
use flyingsquirrel.Base.{if◌then◌else◌}
use flyingsquirrel.Base.Floats.{Floats, nought}

module _ (F : Floats) where
  open F use {F32, f32}

  infixl 65 ◌⊕◌ ◌⊖◌
  infixl 70 ◌⊗◌ ◌⊘◌
  abbrev ◌⊕◌ : F32 → F32 → F32
  a ⊕ b = f32.add a b

  abbrev ◌⊖◌ : F32 → F32 → F32
  a ⊖ b = f32.sub a b

  abbrev ◌⊗◌ : F32 → F32 → F32
  a ⊗ b = f32.mul a b

  abbrev ◌⊘◌ : F32 → F32 → F32
  a ⊘ b = f32.div a b

  abbrev zero_f : F32
  zero_f = nought f32

  abbrev half : F32
  half = f32.lit 5 1

  abbrev two : F32
  two = f32.lit 2 0

  -- A vector of three components, as `[f32; 3]`.
  pub record Vec3 : Type 0 where
    pub x : F32
    pub y : F32
    pub z : F32

  pub record Quaternion : Type 0 where
    pub w : F32
    pub i : F32
    pub j : F32
    pub k : F32

  pub record Madgwick : Type 0 where
    pub q : Quaternion
    pub beta : F32

  unfoldable pub new : F32 → Madgwick
  new beta = record {
    q = record { w = f32.lit 1 0; i = zero_f; j = zero_f; k = zero_f };
    beta = beta;
  }

  unfoldable pub normalize : Quaternion → Quaternion
  normalize q =
      let n = f32.max (f32.sqrt (q.w ⊗ q.w ⊕ q.i ⊗ q.i ⊕ q.j ⊗ q.j ⊕ q.k ⊗ q.k)) (f32.lit 1 9) in
      record { w = q.w ⊘ n; i = q.i ⊘ n; j = q.j ⊘ n; k = q.k ⊘ n }

  -- The quaternion of the angles, as `init_from_accel` and `seed_yaw_deg` both build it.
  unfoldable pub from_euler : F32 → F32 → F32 → Quaternion
  from_euler roll pitch yaw =
      let half_r = roll ⊗ half in
      let half_p = pitch ⊗ half in
      let half_y = yaw ⊗ half in
      let cr = f32.cos half_r in
      let sr = f32.sin half_r in
      let cp = f32.cos half_p in
      let sp = f32.sin half_p in
      let cy = f32.cos half_y in
      let sy = f32.sin half_y in
      normalize (record {
        w = cr ⊗ cp ⊗ cy ⊕ sr ⊗ sp ⊗ sy;
        i = sr ⊗ cp ⊗ cy ⊖ cr ⊗ sp ⊗ sy;
        j = cr ⊗ sp ⊗ cy ⊕ sr ⊗ cp ⊗ sy;
        k = cr ⊗ cp ⊗ sy ⊖ sr ⊗ sp ⊗ cy;
      })

  unfoldable pub init_from_accel : Madgwick → Vec3 → Madgwick
  init_from_accel m accel =
      let ax = f32.neg accel.x in
      let ay = f32.neg accel.y in
      let az = f32.neg accel.z in
      let n = f32.max (f32.sqrt (ax ⊗ ax ⊕ ay ⊗ ay ⊕ az ⊗ az)) (f32.lit 1 6) in
      let axn = ax ⊘ n in
      let ayn = ay ⊘ n in
      let azn = az ⊘ n in
      let roll = f32.atan2 (f32.neg ayn) azn in
      let pitch = f32.atan2 axn (f32.sqrt (ayn ⊗ ayn ⊕ azn ⊗ azn)) in
      record m { q = from_euler roll pitch zero_f }

  unfoldable pub to_euler_rad : Madgwick → F32 × F32 × F32
  to_euler_rad m =
      let q = m.q in
      let sinr_cosp = two ⊗ (q.w ⊗ q.i ⊕ q.j ⊗ q.k) in
      let cosr_cosp = f32.lit 1 0 ⊖ two ⊗ (q.i ⊗ q.i ⊕ q.j ⊗ q.j) in
      let sinp = two ⊗ (q.w ⊗ q.j ⊖ q.k ⊗ q.i) in
      let pitch =
        if f32.le (f32.lit 1 0) (f32.abs sinp)
        then f32.signum sinp ⊗ f32.frac_pi_2
        else f32.asin sinp in
      let siny_cosp = two ⊗ (q.w ⊗ q.k ⊕ q.i ⊗ q.j) in
      let cosy_cosp = f32.lit 1 0 ⊖ two ⊗ (q.j ⊗ q.j ⊕ q.k ⊗ q.k) in
      (f32.atan2 sinr_cosp cosr_cosp, pitch, f32.atan2 siny_cosp cosy_cosp)

  unfoldable pub seed_yaw_deg : Madgwick → F32 → Madgwick
  seed_yaw_deg m yaw_deg =
      let (roll, pitch, _) = to_euler_rad m in
      record m { q = from_euler roll pitch (f32.to_radians yaw_deg) }

  -- What the accelerometer takes off the derivative: beta times the gradient's direction.
  abbrev gradient : Madgwick → Vec3 → F32 → Quaternion
  gradient m acc an =
      let w = m.q.w in
      let x = m.q.i in
      let y = m.q.j in
      let z = m.q.k in
      let fx = two ⊗ (x ⊗ z ⊖ w ⊗ y) ⊕ acc.x ⊘ an in
      let fy = two ⊗ (w ⊗ x ⊕ y ⊗ z) ⊕ acc.y ⊘ an in
      let fz = f32.lit 1 0 ⊖ two ⊗ (x ⊗ x ⊕ y ⊗ y) ⊕ acc.z ⊘ an in
      let jw = two ⊗ (f32.neg y ⊗ fx ⊕ x ⊗ fy ⊕ zero_f ⊗ fz) in
      let jx = two ⊗ (z ⊗ fx ⊕ w ⊗ fy ⊖ two ⊗ x ⊗ fz) in
      let jy = two ⊗ (f32.neg w ⊗ fx ⊕ z ⊗ fy ⊖ two ⊗ y ⊗ fz) in
      let jz = two ⊗ (x ⊗ fx ⊕ y ⊗ fy ⊕ zero_f ⊗ fz) in
      let gn = f32.max (f32.sqrt (jw ⊗ jw ⊕ jx ⊗ jx ⊕ jy ⊗ jy ⊕ jz ⊗ jz)) (f32.lit 1 9) in
      record {
        w = m.beta ⊗ jw ⊘ gn;
        i = m.beta ⊗ jx ⊘ gn;
        j = m.beta ⊗ jy ⊘ gn;
        k = m.beta ⊗ jz ⊘ gn;
      }

  abbrev minus : Quaternion → Quaternion → Quaternion
  minus a b = record { w = a.w ⊖ b.w; i = a.i ⊖ b.i; j = a.j ⊖ b.j; k = a.k ⊖ b.k }

  unfoldable pub update_with_lin_accel : Madgwick → Vec3 → Vec3 → F32 → Vec3 → Madgwick
  update_with_lin_accel m accel gyro dt lin =
      let w = m.q.w in
      let x = m.q.i in
      let y = m.q.j in
      let z = m.q.k in
      let qdot : Quaternion = record {
        w = half ⊗ (f32.neg x ⊗ gyro.x ⊖ y ⊗ gyro.y ⊖ z ⊗ gyro.z);
        i = half ⊗ (w ⊗ gyro.x ⊕ y ⊗ gyro.z ⊖ z ⊗ gyro.y);
        j = half ⊗ (w ⊗ gyro.y ⊖ x ⊗ gyro.z ⊕ z ⊗ gyro.x);
        k = half ⊗ (w ⊗ gyro.z ⊕ x ⊗ gyro.y ⊖ y ⊗ gyro.x);
      } in
      let acc : Vec3 = record { x = accel.x ⊖ lin.x; y = accel.y ⊖ lin.y; z = accel.z ⊖ lin.z } in
      let an = f32.sqrt (acc.x ⊗ acc.x ⊕ acc.y ⊗ acc.y ⊕ acc.z ⊗ acc.z) in
      let d = if f32.lt (f32.lit 1 3) an then minus qdot (gradient m acc an) else qdot in
      record m {
        q =
            normalize
              (record { w = w ⊕ d.w ⊗ dt; i = x ⊕ d.i ⊗ dt; j = y ⊕ d.j ⊗ dt; k = z ⊕ d.k ⊗ dt });
      }

  unfoldable pub update : Madgwick → Vec3 → Vec3 → F32 → Madgwick
  update m accel gyro dt =
      update_with_lin_accel m accel gyro dt (record { x = zero_f; y = zero_f; z = zero_f })
