-- ===== src/Mav/Clock.antt =====
-- src/mav/mod.rs: `ClockAligner`, which maps an autopilot's sensor time stamps onto the local clock. A
-- local instant is in nanoseconds, a sensor stamp in microseconds; `-` stops at 0, as
-- `saturating_duration_since` does.
pub mod Bounds
use flyingsquirrel.Base.{ℕ, ◌+◌, ◌-◌, ◌*◌, Option, none, some, ltb, if◌then◌else◌}

abbrev pub clock_align_max_skew : ℕ
clock_align_max_skew = 2000000000

pub record ClockAligner : Type 0 where
  pub anchor : Option (ℕ × ℕ)

abbrev pub unanchored : ClockAligner
unanchored = record { anchor = none }

-- Anchors at this message and stamps it with its arrival.
abbrev anchored_at : ℕ → ℕ → ClockAligner × ℕ
anchored_at arrival s = (record { anchor = some (arrival, s) }, arrival)

unfoldable pub align : ClockAligner → Option ℕ → ℕ → ClockAligner × ℕ
align c none arrival = (c, arrival)
align c (some s) arrival = elim c.anchor [
  | none ↦ anchored_at arrival s
  | some (anchor_arrival, anchor_sensor) ↦
      let sensor_delta = (s - anchor_sensor) * 1000 in
      let aligned = anchor_arrival + sensor_delta in
      if ltb s anchor_sensor
      then anchored_at arrival s
      else if ltb (arrival - anchor_arrival + clock_align_max_skew) sensor_delta
      then anchored_at arrival s
      else if ltb clock_align_max_skew (arrival - aligned)
      then anchored_at arrival s
      else (c, aligned)
]
