-- ===== src/Tests/Nav.antt =====
-- Runs of src/nav/mod.rs: the dead reckoner, with an attitude that is never turned.
use flyingsquirrel.Base.{ℕ, ◌≡◌, refl, true, List, [], ◌∷◌, none, some, arith, leb}
use flyingsquirrel.Base.Int.{pos, negsuc, ◌+ℤ◌, ◌-ℤ◌, ◌*ℤ◌}
use flyingsquirrel.Base.Lists.{length}
use flyingsquirrel.Base.Fixed.{fin, fixed, fixed-Laws}
use flyingsquirrel.Types.{GpsFix, NavStateKind}
use flyingsquirrel.Nav.Reckoner.{ImuSample}
use flyingsquirrel.Nav.Config.{default_config}
use flyingsquirrel.Nav.Attitude.{Quaternion, Vec3}
use flyingsquirrel.Nav.DeadReckoner.{DeadReckoner, new, on_gps_fix}
use flyingsquirrel.Nav.DeadReckoner.Imu.{init_target}
use flyingsquirrel.Nav.DeadReckoner.Anchor.{on_gps_fix-locked}
use flyingsquirrel.Nav.DeadReckoner.Isolation.{Input, inertial, run, without_gps, run-without_gps}
use flyingsquirrel.Nav.DeadReckoner.Warmup.{steps, steps-new}
use flyingsquirrel.Nav.DeadReckoner.Gate.{Widened, gate-Widened}

abbrev unturned : Quaternion fixed → Vec3 fixed → Vec3 fixed
unturned q v = v

abbrev fix_at : ℕ → GpsFix fixed
fix_at ns = record {
  mono_ns = ns;
  lat_deg = fin (pos 47000);
  lon_deg = fin (pos 8000);
  alt_m = fin (pos 400000);
  speed_mps = some (fin (pos 15000));
  course_deg = some (fin (pos 90000));
  hdop = none;
  sats = none;
}

abbrev level_at : ℕ → ImuSample fixed
level_at ns = record {
  mono_ns = ns;
  accel_x = fin (pos 0);
  accel_y = fin (pos 0);
  accel_z = fin (negsuc 9805);
  gyro_x = fin (pos 0);
  gyro_y = fin (pos 0);
  gyro_z = fin (pos 0);
}

abbrev booted : DeadReckoner fixed
booted = new fixed (default_config fixed)

-- Anchored, with its heading seeded, and suspicious.
abbrev wary : DeadReckoner fixed
wary = record booted {
  initialized = true;
  anchor_locked = true;
  yaw_seeded_from_gps = true;
  origin = some (fin (pos 47000), fin (pos 8000), fin (pos 400000));
  state = NavStateKind.suspicious;
}

on_gps_fix-locked_example :
    let after = on_gps_fix fixed wary (fix_at 3000000000) in
    (after.strapdown.pos ≡ wary.strapdown.pos)
    × (after.origin ≡ wary.origin)
    × (after.anchor_locked ≡ true)
on_gps_fix-locked_example = on_gps_fix-locked fixed wary (fix_at 3000000000) refl

abbrev attacked : List (Input fixed)
attacked =
    Input.gps (fix_at 3000000000)
    ∷ Input.imu (level_at 3010000000)
    ∷ Input.gps (fix_at 3011000000)
    ∷ Input.imu (level_at 3020000000)
    ∷ []

run-without_gps_example :
    (inertial fixed (run fixed unturned unturned wary attacked).0
      ≡ inertial fixed
          (run fixed unturned unturned wary (without_gps fixed unturned unturned attacked)).0)
    × ((run fixed unturned unturned wary attacked).1
        ≡ (run fixed unturned unturned wary (without_gps fixed unturned unturned attacked)).1)
unfolding new default_config
run-without_gps_example =
    run-without_gps fixed unturned unturned wary attacked (refl, refl, refl, refl)

abbrev still : List (ImuSample fixed)
still = level_at 0 ∷ level_at 250000000 ∷ []

steps-new_example :
    (steps fixed unturned unturned booted still).initialized
    ≡ leb (init_target fixed booted) (length still)
unfolding new default_config init_target ◌+ℤ◌ ◌-ℤ◌ ◌*ℤ◌
steps-new_example =
    steps-new fixed unturned unturned (default_config fixed) still (omega arith) (refl, (refl, tt))

gate-Widened_example :
    Widened fixed
      (default_config fixed).max_imu_dt_s
      (steps fixed unturned unturned booted still).cfg.max_imu_dt_s
gate-Widened_example =
    gate-Widened fixed unturned unturned fixed-Laws refl (default_config fixed) still
