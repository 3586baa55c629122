-- ===== src/Tests/Fusion.antt =====
-- Runs of src/fusion.rs over a dead reckoner that stands still and reads degrees as metres.
use flyingsquirrel.Base.{ℕ, ◌*◌, ◌^◌, ◌≡◌, refl, true, false, [], ◌∷◌, none, some}
use flyingsquirrel.Base.Fixed.{Fixed, fixed, fixed_float}
use flyingsquirrel.Types.{GpsFix, NedPos, suspicious, spoofed, horizontal_norm}
use flyingsquirrel.Detect.Config as Thresholds
use flyingsquirrel.Detect.StateMachine.{StateMachine}
use flyingsquirrel.Detect.StateMachine
use flyingsquirrel.Nav.Config as Navigation
use flyingsquirrel.Nav.Reckoner.{Reckoner}
use flyingsquirrel.Fusion.Config.{FusionConfig}
use flyingsquirrel.Fusion.Task.{
  Fusion, World, severs_gps, engages_rtb, verifies_sever, verifies_rtb, new, ready,
}
use flyingsquirrel.Fusion.Gps.{on_gps, route, track, align, assess, forward}
use flyingsquirrel.Fusion.Gps.Events.{actions}
use flyingsquirrel.Fusion.Gps.Latch.{gps, serve, serve-spoofed}
use flyingsquirrel.Base.Fixed.{root_from}
use flyingsquirrel.Base.Int.{◌+ℤ◌, ◌-ℤ◌, ◌*ℤ◌}
use flyingsquirrel.Detect.Residual.{Residual}
use flyingsquirrel.Detect.Jump
use flyingsquirrel.Detect.Drift
use flyingsquirrel.Detect.StateMachine.{
  evaluate, set_pos_detectors_enabled, book_dropout, judge, settle, from_suspicious, run_detectors,
  detector_firing, sample_clean, drift_quiescent, cusum_peak, pos_thresh,
}
use flyingsquirrel.Nav.Frame.{validate_fix_against_reference, gps_velocity}
use flyingsquirrel.Fusion.Verdict.{re_anchor_check, decide, on_events, on_event, on_transition}
use flyingsquirrel.Fusion.Anomalies.{
  note_gap, warn_pause, frozen_candidate, restart_streak, frozen_decision, vertical_check,
  climbs_too_fast, count_doppler,
}
use flyingsquirrel.Fusion.Residuals.{residual_of}
use flyingsquirrel.Detect.Residual.{interpolate, interpolate_in, outside, extrapolate}
use flyingsquirrel.Fusion.Gps.Actions.{actions-on_gps, unready_inert}
use flyingsquirrel.Fusion.Gps.Veto.{Vetoed, decide-Vetoed}

abbrev num : ℕ → Fixed
num n = fixed_float.lit n 0

abbrev here : NedPos fixed
here = record { n = num 0; e = num 0; d = num 0 }

abbrev parked : Reckoner fixed
parked = record {
  State = NedPos fixed;
  step = λ s x. (s, none);
  is_initialized = λ s. true;
  gps_in_ned = λ s fix. some (record { n = fix.lat_deg; e = fix.lon_deg; d = fix.alt_m });
  is_first_fix_plausible = λ s fix. none;
  on_gps_fix = λ s fix. s;
  re_anchor_after_clearing = λ s fix. s;
  set_state = λ s k. s;
  aiding_vel = λ s. record { n = num 0; e = num 0; d = num 0 };
  is_maneuvering = λ s. false;
  dr_pos = λ s. s;
}

abbrev usual : FusionConfig fixed
usual = record {
  nav = Navigation.default_config fixed;
  detect = Thresholds.default_config fixed;
  residual_window_s = num 5;
  max_imu_rate_hz = num 200;
}

abbrev calm : World fixed parked
calm = record {
  now_ns = 1000;
  mav_monitor = none;
  dump_claimed = false;
  sever_ok = false;
  engage_ok = true;
}

abbrev far_fix : GpsFix fixed
far_fix = record {
  mono_ns = 90 * 10 ^ 9;
  lat_deg = num 80;
  lon_deg = num 0;
  alt_m = num 0;
  speed_mps = none;
  course_deg = none;
  hdop = none;
  sats = none;
}

-- Armed, with snapshots around 90 s, and in Suspicious since 60 s.
abbrev flying : Fusion fixed parked
flying = record (new fixed parked usual here) {
  preflight = ready;
  fsm = record (StateMachine.new fixed usual.detect) {
    state = suspicious;
    suspicious_since = some (num 60);
  };
  buffer = record {
    buf =
        record { mono_secs = num 90; pos = here; vel = record { n = num 0; e = num 0; d = num 0 } }
        ∷ [];
    capacity = 10;
    window_secs = num 5;
    max_extrapolation_s = num 1;
  };
}

abbrev caught : Fusion fixed parked
caught = record flying { fsm = record flying.fsm { state = spoofed } }

actions-on_gps_example :
    actions fixed parked (on_gps fixed parked flying calm far_fix).1
    ≡ severs_gps ∷ engages_rtb ∷ verifies_sever ∷ verifies_rtb ∷ []
unfolding new StateMachine.new Thresholds.default_config evaluate set_pos_detectors_enabled judge
    settle from_suspicious book_dropout run_detectors detector_firing sample_clean drift_quiescent
    cusum_peak pos_thresh Jump.new Jump.evaluate Jump.scale Jump.vmismatch_fires Jump.next_count
    Drift.new Drift.evaluate Drift.sample_of Drift.sample_finite Drift.thresholds Drift.learn
    root_from ◌+ℤ◌ ◌-ℤ◌ ◌*ℤ◌ on_gps route track align assess note_gap warn_pause frozen_candidate
    restart_streak frozen_decision vertical_check climbs_too_fast count_doppler decide on_events
    on_event on_transition forward interpolate interpolate_in outside extrapolate residual_of
    horizontal_norm gps_velocity
actions-on_gps_example = actions-on_gps fixed parked flying calm far_fix

serve-spoofed_example :
    (serve fixed parked caught (gps calm far_fix ∷ gps calm far_fix ∷ [])).fsm.state ≡ spoofed
serve-spoofed_example =
    serve-spoofed fixed parked caught (gps calm far_fix ∷ gps calm far_fix ∷ []) refl

unready_inert_example :
    ((on_gps fixed parked (new fixed parked usual here) calm far_fix).0.fsm.state
      ≡ (new fixed parked usual here).fsm.state)
    × (actions fixed parked (on_gps fixed parked (new fixed parked usual here) calm far_fix).1 ≡ [])
unfolding new
unready_inert_example = unready_inert fixed parked (new fixed parked usual here) calm far_fix refl

-- In Suspicious since 60 s, with a clean streak since 80 s.
abbrev calming : Fusion fixed parked
calming = record flying { fsm = record flying.fsm { last_clean_since = some (num 80) } }

abbrev quiet : Residual fixed
quiet = record {
  dpos = here;
  dvel = record { n = num 0; e = num 0; d = num 0 };
  mag_pos = num 0;
  mag_vel = num 0;
  dvel_known = false;
  dvel_free = record { n = num 0; e = num 0; d = num 0 };
  mag_vel_free = num 0;
  maneuvering = false;
}

abbrev far : NedPos fixed
far = record { n = num 600; e = num 0; d = num 0 }

decide-Vetoed_example :
    Vetoed fixed parked calming (decide fixed parked calming calm far_fix quiet far).0 (num 60)
unfolding new StateMachine.new Thresholds.default_config evaluate set_pos_detectors_enabled judge
    settle from_suspicious book_dropout run_detectors detector_firing sample_clean drift_quiescent
    cusum_peak pos_thresh Jump.new Jump.evaluate Jump.scale Jump.vmismatch_fires Jump.next_count
    Drift.new Drift.evaluate Drift.sample_of Drift.sample_finite Drift.thresholds Drift.learn
    re_anchor_check validate_fix_against_reference root_from ◌+ℤ◌ ◌-ℤ◌ ◌*ℤ◌
decide-Vetoed_example =
    decide-Vetoed fixed parked calming calm far_fix quiet far (num 60) (num 600) refl refl refl refl
