-- ===== src/Fusion/Residuals.antt =====
-- src/fusion.rs: the residual that `on_gps` hands to the state machine.
use flyingsquirrel.Base.{Bool, true, false, Option, none, some}
use flyingsquirrel.Base.Floats.{Floats, nought}
use flyingsquirrel.Types.{NedPos, NedVel, horizontal_norm}
use flyingsquirrel.Detect.Residual.{Residual}

module _ (F : Floats) where
  open F use {F64, f64}

  abbrev pub still : NedVel F
  still = record { n = nought f64; e = nought f64; d = nought f64 }

  abbrev pub difference : NedVel F → NedVel F → NedVel F
  difference a b = record { n = f64.sub a.n b.n; e = f64.sub a.e b.e; d = f64.sub a.d b.d }

  abbrev pub sum : NedVel F → NedVel F → NedVel F
  sum a b = record { n = f64.add a.n b.n; e = f64.add a.e b.e; d = f64.add a.d b.d }

  -- `aiding` and `maneuvering` are what the dead reckoner tells. Without both speed and course, the
  -- velocity residuals are zero and not known.
  unfoldable pub residual_of :
      NedPos F → Option (NedVel F) → NedPos F → NedVel F → NedVel F → Bool → Residual F
  residual_of gps_ned v_gps p_imu v_imu aiding maneuvering =
      let dpos : NedPos F = record {
        n = f64.sub gps_ned.n p_imu.n;
        e = f64.sub gps_ned.e p_imu.e;
        d = f64.sub gps_ned.d p_imu.d;
      } in
      elim v_gps [
        | none ↦ record {
          dpos = dpos;
          dvel = still;
          mag_pos = horizontal_norm F dpos.n dpos.e;
          mag_vel = nought f64;
          dvel_known = false;
          dvel_free = still;
          mag_vel_free = nought f64;
          maneuvering = maneuvering;
        }
        | some v ↦
            let dvel = difference v v_imu in
            let free = sum dvel aiding in
            record {
              dpos = dpos;
              dvel = dvel;
              mag_pos = horizontal_norm F dpos.n dpos.e;
              mag_vel = horizontal_norm F dvel.n dvel.e;
              dvel_known = true;
              dvel_free = free;
              mag_vel_free = horizontal_norm F free.n free.e;
              maneuvering = maneuvering;
            }
      ]
