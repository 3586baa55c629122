-- ===== src/Nav/Frame.antt =====
-- src/nav/mod.rs: the free functions on positions. `Err(distance)` is `some distance`.
use flyingsquirrel.Base.{Option, none, some, if◌then◌else◌}
use flyingsquirrel.Base.Floats.{Floats, nought}
use flyingsquirrel.Types.{NedPos, NedVel}

module _ (F : Floats) where
  open F use {F64, f64}

  abbrev pub r_earth_m : F64
  r_earth_m = f64.lit 6378137 0

  unfoldable pub lla_to_ned : F64 → F64 → F64 → F64 → F64 → NedPos F
  lla_to_ned lat_deg lon_deg alt_m lat0 lon0 =
      let lat0_rad = f64.to_radians lat0 in
      let dlat = f64.to_radians (f64.sub lat_deg lat0) in
      let dlon = f64.to_radians (f64.sub lon_deg lon0) in
      record {
        n = f64.mul dlat r_earth_m;
        e = f64.mul (f64.mul dlon r_earth_m) (f64.cos lat0_rad);
        d = f64.neg alt_m;
      }

  unfoldable pub validate_fix_against_reference : NedPos F → NedPos F → F64 → Option F64
  validate_fix_against_reference fix_ned reference max_m =
      let dn = f64.sub fix_ned.n reference.n in
      let de = f64.sub fix_ned.e reference.e in
      let dist = f64.sqrt (f64.add (f64.mul dn dn) (f64.mul de de)) in
      if f64.le dist max_m then none else some dist

  -- `gps_velocity`, which `on_gps` of the fusion task also writes out: known only with both fields.
  unfoldable pub gps_velocity : Option F64 → Option F64 → Option (NedVel F)
  gps_velocity (some speed) (some course) = some (record {
    n = f64.mul speed (f64.cos (f64.to_radians course));
    e = f64.mul speed (f64.sin (f64.to_radians course));
    d = nought f64;
  })
  gps_velocity _ _ = none
