-- ===== src/Nav/DeadReckoner/Anchor.antt =====
-- src/nav/mod.rs: what GPS can do to a `DeadReckoner` whose anchor is locked.
use flyingsquirrel.Base.{◌≡◌, refl, true, Option, none, some, arith}
use flyingsquirrel.Base.Floats.{Floats}
use flyingsquirrel.Types.{GpsFix, NedVel}
use flyingsquirrel.Nav.Frame.{gps_velocity}
use flyingsquirrel.Nav.Strapdown.{set_vel}
use flyingsquirrel.Nav.DeadReckoner.{DeadReckoner, on_gps_fix, seed_yaw, blend, blend_interval}

module _ (F : Floats) where
  open F use {F32, F64, secs}

  seed_yaw_kept :
      (r : DeadReckoner F) (course speed : Option F64)
      → let r' = seed_yaw F r course speed in
        (r'.strapdown ≡ r.strapdown) × (r'.origin ≡ r.origin) × (r'.anchor_locked ≡ r.anchor_locked)
  unfolding seed_yaw
  seed_yaw_kept r none speed = (refl, refl, refl)
  seed_yaw_kept r (some c) none = (refl, refl, refl)
  seed_yaw_kept r (some c) (some s) = ground arith

  blend_kept :
      (r : DeadReckoner F) (dt : F32) (v : Option (NedVel F))
      → let r' = blend F r dt v in
        (r'.strapdown.pos ≡ r.strapdown.pos)
        × (r'.origin ≡ r.origin)
        × (r'.anchor_locked ≡ r.anchor_locked)
  unfolding blend set_vel
  blend_kept r dt none = (refl, refl, refl)
  blend_kept r dt (some v) = (refl, refl, refl)

  -- Once the anchor is locked, `on_gps_fix` moves neither the origin nor the dead-reckoned position and
  -- does not unlock the anchor, whatever the fix is and whatever state the detector is in. (A clear
  -- calls `re_anchor_after_clearing`, another operation, which does move them.)
  pub on_gps_fix-locked :
      (r : DeadReckoner F) (fix : GpsFix F)
      → r.anchor_locked ≡ true
      → let r' = on_gps_fix F r fix in
        (r'.strapdown.pos ≡ r.strapdown.pos) × (r'.origin ≡ r.origin) × (r'.anchor_locked ≡ true)
  unfolding on_gps_fix
  on_gps_fix-locked r fix h =
      let timed = record r { last_gps_mono = some (secs fix.mono_ns) } in
      let seeded = seed_yaw F timed fix.course_deg fix.speed_mps in
      let seeds = seed_yaw_kept timed fix.course_deg fix.speed_mps in
      let dt = blend_interval F r.last_gps_mono (secs fix.mono_ns) in
      let blends = blend_kept seeded dt (gps_velocity F fix.speed_mps fix.course_deg) in
      ground (arith, seeds, blends)
