-- ===== src/Detect/StateMachine/Frame.antt =====
-- src/detect/state_machine.rs: what the dropout bookkeeping leaves alone.
use flyingsquirrel.Base.{◌≡◌, Bool, true, false, Option, none, some, arith}
use flyingsquirrel.Base.Floats.{Floats}
use flyingsquirrel.Detect.StateMachine.{
  StateMachine, absorb_pause, pause_counted, count_dropout, book_dropout,
}

module _ (F : Floats) where
  open F use {F64}

  -- All but the timers, the counters and the warnings.
  pub record Same (m k : StateMachine F) : Type 0 where
    pub cfg : k.cfg ≡ m.cfg
    pub state : k.state ≡ m.state
    pub jump_detector : k.jump_detector ≡ m.jump_detector
    pub drift_detector : k.drift_detector ≡ m.drift_detector
    pub last_clean_since : k.last_clean_since ≡ m.last_clean_since
    pub dropout_recovery : k.dropout_recovery ≡ m.dropout_recovery
    pub external_anomaly : k.external_anomaly ≡ m.external_anomaly
    pub pos_detectors_enabled : k.pos_detectors_enabled ≡ m.pos_detectors_enabled

  absorb_pause-Same :
      (m : StateMachine F) (t : F64) (since : Option F64) → Same m (absorb_pause F m t since)
  unfolding absorb_pause
  absorb_pause-Same m t none = ground arith
  absorb_pause-Same m t (some x) = ground arith

  pause_counted-Same : (m : StateMachine F) (t : F64) → Same m (pause_counted F m t)
  unfolding pause_counted
  pause_counted-Same m t = ground (arith, absorb_pause-Same m t m.suspicious_since)

  pub book_dropout-Same :
      (m : StateMachine F) (in_recovery : Bool) (t : F64) → Same m (book_dropout F m in_recovery t)
  unfolding book_dropout
  book_dropout-Same m true t =
      let counted = pause_counted-Same (count_dropout F m) t in ground arith
  book_dropout-Same m false t = ground arith
