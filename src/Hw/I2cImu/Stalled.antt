-- ===== src/Hw/I2cImu/Stalled.antt =====
-- src/hw/i2c_imu.rs: the stream of a chip whose output is frozen.
use flyingsquirrel.Base.{
  ℕ, ◌+◌, ◌-◌, ◌<◌, ◌≡◌, sym, ap, ◌∙◌, List, [], ◌∷◌, Option, none, some, arith, leb, if◌then◌else◌,
  min, u32_max, Bool-cases, inl, inr,
}
use flyingsquirrel.Base.Floats.{Floats}
use flyingsquirrel.Base.Lists.{length, All}
use flyingsquirrel.Hw.AxisMap.{AxisMap}
use flyingsquirrel.Hw.Mpu6050.{ReadHealth, on_read_ok, on_read_err, escalate, refreshed}
use flyingsquirrel.Hw.Mpu6050.Frozen.{IsFrozen, is_frame_refl}
use flyingsquirrel.Hw.I2cImu.{Ticked, on_verdict, tick, ends, into_stream}

-- The read fails or returns the frame.
abbrev pub Stuck : List ℕ → Option (List ℕ) × ℕ → Type 0
Stuck raw (none, now) = Unit
Stuck raw (some r, now) = r ≡ raw

module _ (F : Floats) (axis_map : AxisMap) where
  abbrev pub IsTrouble : Ticked F axis_map → Type 0
  IsTrouble (Ticked.yielded _) = ⊥
  IsTrouble Ticked.implausible = ⊥
  IsTrouble (Ticked.troubled _) = Unit

  tick-Stuck :
      (h : ReadHealth) (raw : List ℕ) (r : Option (List ℕ) × ℕ)
      → IsFrozen raw h
      → Stuck raw r
      → h.consecutive_errors < u32_max
      → let t = tick F axis_map h r in
        IsFrozen raw t.0
        × (t.0.consecutive_errors ≡ h.consecutive_errors + 1)
        × IsTrouble t.1
        × (ends F axis_map t.1 ≡ leb 1000 (h.consecutive_errors + 1))
  unfolding tick on_verdict on_read_err on_read_ok escalate refreshed
  tick-Stuck h raw (none, now) (e, run) s lt = ground arith
  tick-Stuck h raw (some r, now) (e, run) s lt =
      let found = is_frame_refl h.last_raw r (e ∙ ap some (sym s)) in ground (arith, found)

  -- While the output is frozen and fewer than 1000 reads in a row were bad, reads that fail or return the
  -- same frame again yield no sample: each tick is trouble, and the stream ends at the 1000th.
  pub into_stream-Stuck :
      (h : ReadHealth) (raw : List ℕ) (rs : List (Option (List ℕ) × ℕ))
      → IsFrozen raw h
      → h.consecutive_errors < 1000
      → All (Stuck raw) rs
      → let ticks = into_stream F axis_map h rs in
        All IsTrouble ticks × (length ticks ≡ min (length rs) (1000 - h.consecutive_errors))
  unfolding into_stream
  into_stream-Stuck h raw [] f lt s = (tt, omega arith)
  into_stream-Stuck h raw (r ∷ rs) f lt (s, ss) =
      let (froze, counted, bad, last) = tick-Stuck h raw r f s (omega arith) in
      elim (Bool-cases (leb 1000 (h.consecutive_errors + 1))) [
        | inl c ↦ rw (last ∙ c, if◌then◌else◌) ((bad, tt), ground (arith, c))
        | inr c ↦
            let next = (tick F axis_map h r).0 in
            let (all_bad, len) =
              into_stream-Stuck next raw rs froze (ground (arith, c, counted)) ss in
            rw (last ∙ c, if◌then◌else◌) ((bad, all_bad), ground (arith, c, counted, len))
      ]
