-- ===== src/Nav/DeadReckoner/Reckons.antt =====
-- src/nav/mod.rs: `DeadReckoner` as the fusion task's reckoner.
use flyingsquirrel.Base.{Option, none}
use flyingsquirrel.Base.Floats.{Floats}
use flyingsquirrel.Detect.Residual.{Snapshot}
use flyingsquirrel.Nav.Reckoner.{Reckoner}
use flyingsquirrel.Nav.Attitude.{Quaternion, Vec3}
use flyingsquirrel.Nav.DeadReckoner.{
  DeadReckoner, is_initialized, gps_in_ned, is_first_fix_plausible, on_gps_fix,
  re_anchor_after_clearing, set_state, aiding_vel, is_maneuvering,
}
use flyingsquirrel.Nav.DeadReckoner.Imu.{Stepped, step}

module _ (F : Floats) (body_to_ned ned_to_body : Quaternion F → Vec3 F → Vec3 F) where
  abbrev snapshot_of : DeadReckoner F × Stepped F → DeadReckoner F × Option (Snapshot F)
  snapshot_of (r, Stepped.non_finite) = (r, none)
  snapshot_of (r, Stepped.ok snap) = (r, snap)

  abbrev pub dead_reckoner : Reckoner F
  dead_reckoner = record {
    State = DeadReckoner F;
    step = λ r sample. snapshot_of (step F body_to_ned ned_to_body r sample);
    is_initialized = is_initialized F;
    gps_in_ned = gps_in_ned F;
    is_first_fix_plausible = is_first_fix_plausible F;
    on_gps_fix = on_gps_fix F;
    re_anchor_after_clearing = re_anchor_after_clearing F;
    set_state = set_state F;
    aiding_vel = aiding_vel F;
    is_maneuvering = is_maneuvering F;
    dr_pos = λ r. r.strapdown.pos;
  }
