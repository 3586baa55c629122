-- ===== src/Tests/Mav.antt =====
-- Runs of src/mav/monitor.rs and src/mav/controller.rs.
use flyingsquirrel.Base.{ℕ, ◌≡◌, refl, true, false, List, [], ◌∷◌, some}
use native.Mathlib.Decide.{ℕ_discrete}
use flyingsquirrel.Base.Fixed.{fixed, fixed_float}
use flyingsquirrel.Base.Int.{◌+ℤ◌, ◌-ℤ◌, ◌*ℤ◌}
use flyingsquirrel.Base.Maps.{lookup}
use flyingsquirrel.Mav.Modes.{ardu_copter, is_rtl_mode}
use flyingsquirrel.Mav.Monitor.{
  MavMonitor, ParamEcho, SocketAddr, new, last_ack_for_cmd, last_param_value, Name-discrete,
  is_armed,
}
use flyingsquirrel.Mav.Controller.{
  Controller, MavParamType, int8, int32, Poll, sever_gps, sever_gps_param, verify_rtb_engaged,
  verify_sever_engaged, rtb_loop, next_rtl, ack_ok, causal_mode, expected_ack_cmd, sever_loop,
  sever_echo_confirms,
}
use flyingsquirrel.Mav.Controller.Dwell.{Dwelt}
use flyingsquirrel.Mav.Controller.Confirm.{
  Echoed, verify_rtb_engaged_sound, verify_sever_engaged_sound,
}

abbrev Same : ℕ → ℕ → Type 0
Same a b = a ≡ b

abbrev blank : MavMonitor fixed
blank = new fixed

-- One ACK, of command 11 at time 50.
abbrev acked : MavMonitor fixed
acked = record blank { acks_by_cmd = (11, (0, 50)) ∷ [] }

-- "AB" behind which the parameter's 16 bytes are zero, and the name "A".
abbrev padded : List ℕ
padded = 65 ∷ 66 ∷ 0 ∷ 0 ∷ []

abbrev echo : ℕ → ℕ → ParamEcho fixed
echo ns count = record {
  value = fixed_float.lit 0 0;
  param_type = 2;
  recv_ns = ns;
  recv_count = count;
}

abbrev echoed : MavMonitor fixed
echoed = record blank { params_by_name = (65 ∷ 66 ∷ [], echo 50 3) ∷ [] }

abbrev pilot : SocketAddr
pilot = record { ip = 1; port = 14550 }

abbrev intruder : SocketAddr
intruder = record { ip = 2; port = 14550 }

abbrev locked : MavMonitor fixed
locked = record blank { locked_source = some pilot }

abbrev sent : Controller fixed
sent = record {
  target_system = 1;
  target_component = 1;
  profile = ardu_copter;
  rtb_sent_at_ns = 10;
  sever_sent_at_ns = 0;
  sever_echo_baseline = 0;
}

-- The autopilot has acknowledged, returns, and has last been heard at `hb`.
abbrev returning : ℕ → Poll fixed
returning hb = record {
  monitor = record blank {
    last_heartbeat_ns = hb;
    current_custom_mode = 6;
    mode_changed_at_ns = 20;
    current_base_mode = 128;
    acks_by_cmd = (20, (0, 15)) ∷ [];
  };
  expired = false;
}

verify_rtb_engaged_sound_example :
    (¬ Same 10 0) × Dwelt fixed ardu_copter 10 5 (returning 30 ∷ returning 40 ∷ returning 50 ∷ [])
unfolding new verify_rtb_engaged rtb_loop next_rtl ack_ok causal_mode expected_ack_cmd
    last_ack_for_cmd lookup is_rtl_mode is_armed ℕ_discrete
verify_rtb_engaged_sound_example =
    verify_rtb_engaged_sound fixed sent (record blank { last_heartbeat_ns = 5 })
      (returning 30 ∷ returning 40 ∷ returning 50 ∷ []) refl

abbrev wire : MavParamType → ℕ
wire int8 = 2
wire int32 = 6

-- GPS_TYPE has been echoed `count` times, lastly at time `ns`.
abbrev echoes : ℕ → ℕ → MavMonitor fixed
echoes ns count = record blank {
  params_by_name = (b'G' ∷ b'P' ∷ b'S' ∷ b'_' ∷ b'T' ∷ b'Y' ∷ b'P' ∷ b'E' ∷ [], echo ns count) ∷ [];
}

verify_sever_engaged_sound_example :
    (¬ Same 60 0)
    × Same 3 3
    × Echoed fixed wire
        (record sent { sever_sent_at_ns = 60; sever_echo_baseline = 3 })
        (record { monitor = echoes 80 5; expired = false } ∷ [])
unfolding new sever_gps sever_gps_param verify_sever_engaged sever_loop sever_echo_confirms
    last_param_value lookup Name-discrete ℕ_discrete ◌+ℤ◌ ◌-ℤ◌ ◌*ℤ◌
verify_sever_engaged_sound_example =
    verify_sever_engaged_sound fixed wire sent (echoes 50 3) 60 (true ∷ [])
      (record { monitor = echoes 80 5; expired = false } ∷ []) refl
