-- ===== src/Hw/I2cImu.antt =====
-- src/hw/i2c_imu.rs: the loop of the driver's `into_stream`, one tick at a time. A read returns a frame or
-- fails. The bus is I/O: whether it could be opened anew after a trouble changes nothing here.
pub mod Stalled
use flyingsquirrel.Base.{ℕ, Bool, true, false, List, [], ◌∷◌, Option, none, some, if◌then◌else◌}
use flyingsquirrel.Base.Floats.{Floats}
use flyingsquirrel.Nav.Reckoner.{ImuSample}
use flyingsquirrel.Mav.Ingest.{imu_sample_is_plausible}
use flyingsquirrel.Hw.AxisMap.{AxisMap}
use flyingsquirrel.Hw.Mpu6050.{
  ReadHealth, ReadVerdict, Trouble, on_read_ok, on_read_err, sample_from_raw,
}

module _ (F : Floats) (axis_map : AxisMap) where
  -- What a tick does: it yields a sample, drops an implausible one, or has a trouble, at which the bus is
  -- opened anew or the stream ends, as the trouble says.
  pub data Ticked : Type 0 where
    yielded : ImuSample F → Ticked
    implausible : Ticked
    troubled : Trouble → Ticked

  unfoldable pub on_verdict : List ℕ → ℕ → ReadHealth × ReadVerdict → ReadHealth × Ticked
  on_verdict raw now (h, ReadVerdict.fresh _) =
      let sample = sample_from_raw F now raw axis_map in
      if imu_sample_is_plausible F sample
      then (h, Ticked.yielded sample)
      else (h, Ticked.implausible)
  on_verdict raw now (h, ReadVerdict.frozen t) = (h, Ticked.troubled t)

  abbrev on_failure : ReadHealth × Trouble → ReadHealth × Ticked
  on_failure (h, t) = (h, Ticked.troubled t)

  unfoldable pub tick : ReadHealth → Option (List ℕ) × ℕ → ReadHealth × Ticked
  tick h (none, now) = on_failure (on_read_err h)
  tick h (some raw, now) = on_verdict raw now (on_read_ok h raw)

  abbrev pub ends : Ticked → Bool
  ends (Ticked.troubled t) = t.end_stream
  ends _ = false

  -- The ticks until the stream ends.
  unfoldable pub into_stream : ReadHealth → List (Option (List ℕ) × ℕ) → List Ticked
  into_stream h [] = []
  into_stream h (r ∷ rs) =
      let t = tick h r in let rest = into_stream t.0 rs in if ends t.1 then t.1 ∷ [] else t.1 ∷ rest
