-- ===== src/Detect/Jump.antt =====
-- src/detect/jump.rs: the velocity-mismatch test with its persistence counter, and the hard test
-- on the position residual. `consecutive_vmismatch` is a `u8` and saturates.
pub mod Persistence
use flyingsquirrel.Base.{
  ℕ, ◌-◌, Bool, ◌&&◌, Option, none, some, leb, if◌then◌else◌, saturating_inc, u8_max,
}
use flyingsquirrel.Base.Floats.{Floats}
use flyingsquirrel.Detect.Config.{DetectConfig, hdop_bad, sats_bad}
use flyingsquirrel.Detect.Residual.{Residual}

pub data JumpReason : Type 0 where
  velocity_mismatch hard_residual : JumpReason

module _ (F : Floats) where
  open F use {F32, f32, narrow}

  pub record JumpDetector : Type 0 where
    pub cfg : DetectConfig F
    pub consecutive_vmismatch : ℕ

  unfoldable pub new : DetectConfig F → JumpDetector
  new cfg = record { cfg = cfg; consecutive_vmismatch = 0 }

  -- The two thresholds of a fix: for the position, and for the velocity.
  unfoldable pub scale : DetectConfig F → Option F32 → Option ℕ → F32 × F32
  scale cfg hdop sats =
      if hdop_bad F cfg hdop && sats_bad F cfg sats
      then (
        f32.mul cfg.max_jump_m (f32.lit 2 0),
        f32.mul cfg.max_velocity_mismatch_mps (f32.lit 15 1),
      )
      else (cfg.max_jump_m, cfg.max_velocity_mismatch_mps)

  -- The counter behind one fix.
  unfoldable pub next_count : ℕ → Residual F → F32 → ℕ
  next_count count r vmismatch_thresh =
      if r.dvel_known
      then if f32.lt vmismatch_thresh (narrow r.mag_vel) then saturating_inc u8_max count else 0
      else count - 1

  -- Whether the velocity test returns early.
  unfoldable pub vmismatch_fires : DetectConfig F → ℕ → Residual F → F32 → Bool
  vmismatch_fires cfg count r vmismatch_thresh =
      r.dvel_known
      && f32.lt vmismatch_thresh (narrow r.mag_vel)
      && leb cfg.jump_persist_fixes (next_count count r vmismatch_thresh)

  unfoldable pub evaluate :
      JumpDetector → Residual F → Option F32 → Option ℕ → JumpDetector × Option JumpReason
  evaluate m r hdop sats =
      let (jump_thresh, vmismatch_thresh) = scale m.cfg hdop sats in
      let count = m.consecutive_vmismatch in
      (
        record m { consecutive_vmismatch = next_count count r vmismatch_thresh },
        if vmismatch_fires m.cfg count r vmismatch_thresh
            then some velocity_mismatch
            else if f32.lt jump_thresh (narrow r.mag_pos)
            then some hard_residual
            else none,
      )

  unfoldable pub reset : JumpDetector → JumpDetector
  reset m = record m { consecutive_vmismatch = 0 }
