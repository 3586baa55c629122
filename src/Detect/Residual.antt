-- ===== src/Detect/Residual.antt =====
-- src/detect/residual.rs: the buffer of navigation snapshots, its interpolation, and the residual.
pub mod Buffer
pub mod Bracket
pub mod Cases
pub mod Answers
use flyingsquirrel.Base.{ℕ, ◌+◌, Bool, ◌||◌, List, [], ◌∷◌, ◌++◌, none, some, ltb, if◌then◌else◌}
use flyingsquirrel.Base.Int.{ℤ}
use flyingsquirrel.Base.Lists.{length, head?, get_last?}
use flyingsquirrel.Base.Floats.{Floats, nought, clamp}
use flyingsquirrel.Types.{NedPos, NedVel}

-- `DetectError`.
pub data DetectError : Type 0 where
  buffer_empty : DetectError
  gps_outside_buffer : ℤ → DetectError

pub data Result {ℓ} (A : Type ℓ) : Type ℓ where
  ok : A → Result A
  err : DetectError → Result A

module _ (F : Floats) where
  open F use {F64, f64, to_i64, ceil_usize}

  -- The fields of `NavStateSnapshot` that the buffer reads.
  pub record Snapshot : Type 0 where
    pub mono_secs : F64
    pub pos : NedPos F
    pub vel : NedVel F

  pub record ResidualBuffer : Type 0 where
    pub buf : List Snapshot
    pub capacity : ℕ
    pub window_secs : F64
    pub max_extrapolation_s : F64

  unfoldable pub new : F64 → F64 → ResidualBuffer
  new window_secs max_rate_hz = record {
    buf = [];
    capacity = ceil_usize (f64.mul (f64.mul window_secs max_rate_hz) (f64.lit 11 1)) + 4;
    window_secs = window_secs;
    max_extrapolation_s = f64.lit 25 2;
  }

  -- The `while let` loop of `push`: drop the front while it is older than the window.
  unfoldable pub trim_window : F64 → F64 → List Snapshot → List Snapshot
  trim_window latest window [] = []
  trim_window latest window (x ∷ xs) =
      let rest = trim_window latest window xs in
      if f64.lt window (f64.sub latest x.mono_secs) then rest else x ∷ xs

  -- The second loop of `push`: drop the front while the buffer is over its capacity.
  unfoldable pub trim_capacity : ℕ → List Snapshot → List Snapshot
  trim_capacity cap [] = []
  trim_capacity cap (x ∷ xs) =
      let rest = trim_capacity cap xs in if ltb cap (length (x ∷ xs)) then rest else x ∷ xs

  -- `latest` is read behind the `push_back`, so it is the new snapshot's time.
  unfoldable pub push : ResidualBuffer → Snapshot → ResidualBuffer
  push b x = record b {
    buf = trim_capacity b.capacity (trim_window x.mono_secs b.window_secs (b.buf ++ (x ∷ [])));
  }

  unfoldable pub clear : ResidualBuffer → ResidualBuffer
  clear b = record b { buf = [] }

  -- The scan of `bracket`: the first snapshot at or past `t`, with the one before it.
  unfoldable pub bracket_from : F64 → Snapshot → List Snapshot → Snapshot × Snapshot
  bracket_from t prev [] = (prev, prev)
  bracket_from t prev (x ∷ xs) =
      let rest = bracket_from t x xs in if f64.le t x.mono_secs then (prev, x) else rest

  abbrev pub lerp : F64 → F64 → F64 → F64
  lerp alpha a b = f64.add a (f64.mul alpha (f64.sub b a))

  -- The value between two snapshots.
  unfoldable pub blend : F64 → Snapshot → Snapshot → NedPos F × NedVel F
  blend t a b =
      let span = f64.sub b.mono_secs a.mono_secs in
      let alpha = clamp f64 (f64.div (f64.sub t a.mono_secs) span) (nought f64) (f64.lit 1 0) in
      if f64.le span (nought f64) then (a.pos, a.vel) else (
        record {
          n = lerp alpha a.pos.n b.pos.n;
          e = lerp alpha a.pos.e b.pos.e;
          d = lerp alpha a.pos.d b.pos.d;
        },
        record {
          n = lerp alpha a.vel.n b.vel.n;
          e = lerp alpha a.vel.e b.vel.e;
          d = lerp alpha a.vel.d b.vel.d;
        },
      )

  -- The newest snapshot carried forward along its velocity.
  unfoldable pub extrapolate : F64 → Snapshot → NedPos F × NedVel F
  extrapolate t x =
      let dt = f64.sub t x.mono_secs in
      (
        record {
          n = f64.add x.pos.n (f64.mul x.vel.n dt);
          e = f64.add x.pos.e (f64.mul x.vel.e dt);
          d = f64.add x.pos.d (f64.mul x.vel.d dt);
        },
        x.vel,
      )

  abbrev pub back_tolerance : F64
  back_tolerance = f64.lit 2 2

  -- The bounds check of `interpolate`, on the oldest and newest times.
  unfoldable pub outside : F64 → F64 → F64 → F64 → Bool
  outside t earliest latest horizon =
      f64.lt t (f64.sub earliest back_tolerance) || f64.lt (f64.add latest horizon) t

  unfoldable pub gap_ms : F64 → F64 → F64 → ℤ
  gap_ms t earliest latest =
      if f64.lt t earliest
      then to_i64 (f64.mul (f64.sub earliest t) (f64.lit 1000 0))
      else to_i64 (f64.mul (f64.sub t latest) (f64.lit 1000 0))

  -- `interpolate` on a buffer with front `first`, back `last` and all of its snapshots.
  unfoldable pub interpolate_in :
      F64 → F64 → Snapshot → Snapshot → List Snapshot → Result (NedPos F × NedVel F)
  interpolate_in horizon t first last all =
      if outside t first.mono_secs last.mono_secs horizon
      then err (gps_outside_buffer (gap_ms t first.mono_secs last.mono_secs))
      else if f64.le last.mono_secs t
      then ok (extrapolate t last)
      else if f64.le t first.mono_secs
      then ok (first.pos, first.vel)
      else (let (a, b) = bracket_from t first all in ok (blend t a b))

  unfoldable pub interpolate : ResidualBuffer → F64 → Result (NedPos F × NedVel F)
  interpolate b t = elim (head? b.buf) [
    | none ↦ err buffer_empty
    | some first ↦ elim (get_last? b.buf) [
      | none ↦ err buffer_empty
      | some last ↦ interpolate_in b.max_extrapolation_s t first last b.buf
    ]
  ]

  pub record Residual : Type 0 where
    pub dpos : NedPos F
    pub dvel : NedVel F
    pub mag_pos : F64
    pub mag_vel : F64
    pub dvel_known : Bool
    pub dvel_free : NedVel F
    pub mag_vel_free : F64
    pub maneuvering : Bool
