-- ===== src/Hw/Mpu6050.antt =====
-- src/hw/mpu6050.rs: the decoding of a raw frame, and `ReadHealth`. A frame is the list of its 14 bytes.
pub mod Frozen
use flyingsquirrel.Base.{
  ℕ, zero, suc, ◌+◌, ◌-◌, ◌*◌, ◌%◌, Bool, true, false, not, ◌&&◌, List, [], ◌∷◌, Option, none, some,
  ltb, leb, ◌==◌, if◌then◌else◌, saturating_inc, u32_max,
}
use flyingsquirrel.Base.Int.{ℤ, sub_ℕ}
use flyingsquirrel.Base.Lists.{same_bytes}
use flyingsquirrel.Base.Floats.{Floats}
use flyingsquirrel.Nav.Reckoner.{ImuSample}
use flyingsquirrel.Hw.AxisMap.{AxisMap, apply}

abbrev pub who_am_i_mpu6050 : ℕ
who_am_i_mpu6050 = 104

-- `Ok(())`.
unfoldable pub check_who_am_i : ℕ → Bool
check_who_am_i read = read == who_am_i_mpu6050

-- The byte at an index, which a frame has.
abbrev pub byte_at : List ℕ → ℕ → ℕ
byte_at [] n = 0
byte_at (b ∷ bs) zero = b
byte_at (b ∷ bs) (suc n) = byte_at bs n

-- `i16::from_be_bytes`.
unfoldable pub from_be_bytes : ℕ → ℕ → ℤ
from_be_bytes hi lo = let n = hi * 256 + lo in if ltb n 32768 then sub_ℕ n 0 else sub_ℕ n 65536

module _ (F : Floats) where
  open F use {F32, f32}

  -- `v as f32 * G_PER_LSB * G_TO_MPS2`, and `(v as f32 * DEG_S_PER_LSB).to_radians()`.
  abbrev to_mps2 : ℤ → F32
  to_mps2 v =
      let g_per_lsb = f32.div (f32.lit 1 0) (f32.lit 16384 0) in
      f32.mul (f32.mul (f32.of_ℤ v) g_per_lsb) (f32.lit 980665 5)

  abbrev to_rps : ℤ → F32
  to_rps v = f32.to_radians (f32.mul (f32.of_ℤ v) (f32.div (f32.lit 1 0) (f32.lit 131 0)))

  unfoldable pub sample_from_raw : ℕ → List ℕ → AxisMap → ImuSample F
  sample_from_raw now raw axis_map =
      let ax = from_be_bytes (byte_at raw 0) (byte_at raw 1) in
      let ay = from_be_bytes (byte_at raw 2) (byte_at raw 3) in
      let az = from_be_bytes (byte_at raw 4) (byte_at raw 5) in
      let gx = from_be_bytes (byte_at raw 8) (byte_at raw 9) in
      let gy = from_be_bytes (byte_at raw 10) (byte_at raw 11) in
      let gz = from_be_bytes (byte_at raw 12) (byte_at raw 13) in
      let accel = apply F axis_map (to_mps2 ax, to_mps2 ay, to_mps2 az) in
      let gyro = apply F axis_map (to_rps gx, to_rps gy, to_rps gz) in
      record {
        mono_ns = now;
        accel_x = accel.0;
        accel_y = accel.1;
        accel_z = accel.2;
        gyro_x = gyro.0;
        gyro_y = gyro.1;
        gyro_z = gyro.2;
      }

abbrev pub degraded_threshold : ℕ
degraded_threshold = 100

abbrev pub reinit_interval : ℕ
reinit_interval = 200

abbrev pub bus_down_threshold : ℕ
bus_down_threshold = 1000

abbrev pub frozen_output_threshold : ℕ
frozen_output_threshold = 100

pub data TroubleKind : Type 0 where
  read_error frozen_output : TroubleKind

pub record Trouble : Type 0 where
  pub kind : TroubleKind
  pub consecutive_errors : ℕ
  pub warn_degraded : Bool
  pub reinit : Bool
  pub end_stream : Bool

pub data ReadVerdict : Type 0 where
  fresh : Option ℕ → ReadVerdict
  frozen : Trouble → ReadVerdict

pub record ReadHealth : Type 0 where
  pub consecutive_errors : ℕ
  pub last_raw : Option (List ℕ)
  pub frozen_run : ℕ

abbrev pub new : ReadHealth
new = record { consecutive_errors = 0; last_raw = none; frozen_run = 0 }

abbrev trouble_at : TroubleKind → ℕ → Trouble
trouble_at kind errors = record {
  kind = kind;
  consecutive_errors = errors;
  warn_degraded = errors == degraded_threshold;
  reinit = not (leb bus_down_threshold errors) && errors % reinit_interval == 0;
  end_stream = leb bus_down_threshold errors;
}

unfoldable pub escalate : ReadHealth → TroubleKind → ReadHealth × Trouble
escalate h kind =
    let errors = saturating_inc u32_max h.consecutive_errors in
    (record h { consecutive_errors = errors }, trouble_at kind errors)

unfoldable pub on_read_err : ReadHealth → ReadHealth × Trouble
on_read_err h = escalate h TroubleKind.read_error

abbrev pub is_frame : Option (List ℕ) → List ℕ → Bool
is_frame none raw = false
is_frame (some last) raw = same_bytes last raw

-- The ladder starts again.
unfoldable pub refreshed : ReadHealth → ReadHealth × ReadVerdict
refreshed h = (
  record h { consecutive_errors = 0 },
  ReadVerdict.fresh (if ltb 0 h.consecutive_errors then some h.consecutive_errors else none),
)

abbrev stale : ReadHealth × Trouble → ReadHealth × ReadVerdict
stale (h, t) = (h, ReadVerdict.frozen t)

unfoldable pub on_read_ok : ReadHealth → List ℕ → ReadHealth × ReadVerdict
on_read_ok h raw =
    let run = saturating_inc u32_max h.frozen_run in
    let stuck = record h { frozen_run = run } in
    if is_frame h.last_raw raw
    then if leb frozen_output_threshold run
      then stale (escalate stuck TroubleKind.frozen_output)
      else refreshed stuck
    else refreshed (record h { last_raw = some raw; frozen_run = 0 })
