-- ===== src/Detect/Residual/Answers.antt =====
-- src/detect/residual.rs: what `interpolate` answers for every time, written out.
use flyingsquirrel.Base.{◌≡◌, true}
use flyingsquirrel.Base.Floats.{Floats}
use flyingsquirrel.Detect.Residual.{Snapshot}

module _ (F : Floats) where
  open F use {F64, f64, to_i64}

  -- The stamp of a snapshot is not NaN.
  abbrev pub Stamped : Snapshot F → Type 0
  Stamped s = f64.le s.mono_secs s.mono_secs ≡ true
