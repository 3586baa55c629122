-- ===== src/Nav/Reckoner.antt =====
-- src/nav/mod.rs: the operations of `DeadReckoner` that the fusion task calls, as an interface over
-- the reckoner's state. `is_first_fix_plausible` is `some distance` for `Err(distance)`, and `step`
-- returns the snapshot of `Ok(Some(_))`, if any.
use flyingsquirrel.Base.{ℕ, Bool, Option}
use flyingsquirrel.Base.Floats.{Floats}
use flyingsquirrel.Types.{NavStateKind, GpsFix, NedPos, NedVel}
use flyingsquirrel.Detect.Residual.{Snapshot}

pub record ImuSample (F : Floats) : Type 0 where
  pub mono_ns : ℕ
  pub accel_x : F.F32
  pub accel_y : F.F32
  pub accel_z : F.F32
  pub gyro_x : F.F32
  pub gyro_y : F.F32
  pub gyro_z : F.F32

pub record Reckoner (F : Floats) : Type 1 where
  pub State : Type 0
  pub step : State → ImuSample F → State × Option (Snapshot F)
  pub is_initialized : State → Bool
  pub gps_in_ned : State → GpsFix F → Option (NedPos F)
  pub is_first_fix_plausible : State → GpsFix F → Option F.F64
  pub on_gps_fix : State → GpsFix F → State
  pub re_anchor_after_clearing : State → GpsFix F → State
  pub set_state : State → NavStateKind → State
  pub aiding_vel : State → NedVel F
  pub is_maneuvering : State → Bool
  pub dr_pos : State → NedPos F
