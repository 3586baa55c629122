-- ===== src/Detect/Residual/Cases.antt =====
-- src/detect/residual.rs: the answers of `interpolate`, as the time and the snapshots give them.
use flyingsquirrel.Base.{◌≡◌, ◌⊎◌, true, false, [], some}
use flyingsquirrel.Base.Floats.{Floats, clamp}
use flyingsquirrel.Base.Lists.{head?, get_last?}
use flyingsquirrel.Types.{NedPos, NedVel}
use flyingsquirrel.Detect.Residual.{
  Snapshot, ResidualBuffer, Result, ok, err, buffer_empty, gps_outside_buffer,
}
use flyingsquirrel.Detect.Residual.Bracket.{Consecutive}

module _ (F : Floats) where
  open F use {F64, f64, to_i64}

  -- The ends of a buffer that is not empty.
  pub record Ends (b : ResidualBuffer F) (first last : Snapshot F) : Type 0 where
    pub front : head? b.buf ≡ some first
    pub back : get_last? b.buf ≡ some last

  -- The time lies more than 20 ms before the oldest snapshot, or past the newest by more than the horizon.
  abbrev pub TooFar : F64 → F64 → F64 → F64 → Type 0
  TooFar horizon t first last =
      (f64.lt t (f64.sub first (f64.lit 2 2)) ≡ true) ⊎ (f64.lt (f64.add last horizon) t ≡ true)

  abbrev pub Within : F64 → F64 → F64 → F64 → Type 0
  Within horizon t first last =
      (f64.lt t (f64.sub first (f64.lit 2 2)) ≡ false) × (f64.lt (f64.add last horizon) t ≡ false)

  -- How far between two times the third is, and the value at that share of the way.
  abbrev pub share : F64 → F64 → F64 → F64
  share t from to =
      clamp f64 (f64.div (f64.sub t from) (f64.sub to from)) (f64.lit 0 0) (f64.lit 1 0)

  abbrev pub at_share : F64 → F64 → F64 → F64
  at_share alpha x y = f64.add x (f64.mul alpha (f64.sub y x))

  abbrev pub line_pos : F64 → Snapshot F → Snapshot F → NedPos F
  line_pos alpha a b = record {
    n = at_share alpha a.pos.n b.pos.n;
    e = at_share alpha a.pos.e b.pos.e;
    d = at_share alpha a.pos.d b.pos.d;
  }

  abbrev pub line_vel : F64 → Snapshot F → Snapshot F → NedVel F
  line_vel alpha a b = record {
    n = at_share alpha a.vel.n b.vel.n;
    e = at_share alpha a.vel.e b.vel.e;
    d = at_share alpha a.vel.d b.vel.d;
  }

  -- The position at constant velocity, some time behind the snapshot.
  abbrev pub coasted : Snapshot F → F64 → NedPos F
  coasted s dt = record {
    n = f64.add s.pos.n (f64.mul s.vel.n dt);
    e = f64.add s.pos.e (f64.mul s.vel.e dt);
    d = f64.add s.pos.d (f64.mul s.vel.d dt);
  }

  -- The answers that a buffer may give for a time.
  pub data Answer (b : ResidualBuffer F) (t : F64) : Result (NedPos F × NedVel F) → Type 0 where
    empty : b.buf ≡ [] → Answer b t (err buffer_empty)
    too_early :
        (first last : Snapshot F)
        → Ends b first last
        → TooFar b.max_extrapolation_s t first.mono_secs last.mono_secs
        → f64.lt t first.mono_secs ≡ true
        → Answer b t (
            err
              (gps_outside_buffer (to_i64 (f64.mul (f64.sub first.mono_secs t) (f64.lit 1000 0)))))
    too_late :
        (first last : Snapshot F)
        → Ends b first last
        → TooFar b.max_extrapolation_s t first.mono_secs last.mono_secs
        → f64.lt t first.mono_secs ≡ false
        → Answer b t (
            err (gps_outside_buffer (to_i64 (f64.mul (f64.sub t last.mono_secs) (f64.lit 1000 0)))))
    ahead :
        (first last : Snapshot F)
        → Ends b first last
        → Within b.max_extrapolation_s t first.mono_secs last.mono_secs
        → f64.le last.mono_secs t ≡ true
        → Answer b t (ok (coasted last (f64.sub t last.mono_secs), last.vel))
    behind :
        (first last : Snapshot F)
        → Ends b first last
        → Within b.max_extrapolation_s t first.mono_secs last.mono_secs
        → f64.lt t last.mono_secs ≡ true
        → f64.le t first.mono_secs ≡ true
        → Answer b t (ok (first.pos, first.vel))
    between :
        (x y : Snapshot F)
        → Consecutive F x y b.buf
        → f64.le t x.mono_secs ≡ false
        → f64.le t y.mono_secs ≡ true
        → f64.le (f64.sub y.mono_secs x.mono_secs) (f64.lit 0 0) ≡ false
        → Answer b t (
            ok (
              line_pos (share t x.mono_secs y.mono_secs) x y,
              line_vel (share t x.mono_secs y.mono_secs) x y,
            ))
    coincident :
        (x y : Snapshot F)
        → Consecutive F x y b.buf
        → f64.le t x.mono_secs ≡ false
        → f64.le t y.mono_secs ≡ true
        → f64.le (f64.sub y.mono_secs x.mono_secs) (f64.lit 0 0) ≡ true
        → Answer b t (ok (x.pos, x.vel))
