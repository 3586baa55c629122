-- ===== src/Mav/Controller.antt =====
-- src/mav/controller.rs: `MavFlightController`: what an action sends and notes, and the two read-backs that
-- confirm it. A read-back polls the monitor; its polls are a list, each with the monitor as it stood
-- and whether the deadline had passed. The outcome of each send is an argument.
pub mod Dwell
pub mod Confirm
use flyingsquirrel.Base.{
  ℕ, ◌+◌, ◌-◌, Bool, true, false, not, ◌&&◌, ◌||◌, List, [], ◌∷◌, Option, none, some, ltb, leb,
  ◌==◌, if◌then◌else◌, saturating_inc, u8_max,
}
use flyingsquirrel.Base.Floats.{Floats}
use flyingsquirrel.Mav.Modes.{
  VehicleProfile, ardu_copter, px4, is_rtl_mode, px4_main_mode_auto, px4_sub_mode_auto_rtl,
}
use flyingsquirrel.Mav.Monitor.{
  MavMonitor, ParamEcho, is_armed, last_ack_for_cmd, last_param_value, prior_count,
}

abbrev pub mav_result_accepted : ℕ
mav_result_accepted = 0

abbrev pub rtb_verify_dwell_polls : ℕ
rtb_verify_dwell_polls = 3

abbrev pub sever_verify_dwell_echoes : ℕ
sever_verify_dwell_echoes = 2

-- The command that an RTL is sent as, by `engage_rtb_message` and in `verify_rtb_engaged`.
unfoldable pub expected_ack_cmd : VehicleProfile → ℕ
expected_ack_cmd ardu_copter = 20
expected_ack_cmd px4 = 176

-- The two of the `mavlink` crate's parameter types that the code names; the byte of each on the wire is
-- an argument of the read-back.
pub data MavParamType : Type 0 where
  int8 int32 : MavParamType

-- The bytes of GPS_TYPE with INT8, and of EKF2_GPS_CTRL with INT32.
unfoldable pub sever_gps_param : VehicleProfile → List ℕ × MavParamType
sever_gps_param ardu_copter = (b'G' ∷ b'P' ∷ b'S' ∷ b'_' ∷ b'T' ∷ b'Y' ∷ b'P' ∷ b'E' ∷ [], int8)
sever_gps_param px4 = (
  b'E' ∷ b'K' ∷ b'F' ∷ b'2' ∷ b'_' ∷ b'G' ∷ b'P' ∷ b'S' ∷ b'_' ∷ b'C' ∷ b'T' ∷ b'R' ∷ b'L' ∷ [],
  int32,
)

-- A COMMAND_LONG with its first three parameters, which are small whole numbers.
pub record CommandLong : Type 0 where
  pub target_system : ℕ
  pub target_component : ℕ
  pub command : ℕ
  pub param1 : ℕ
  pub param2 : ℕ
  pub param3 : ℕ

-- `send_repeated`: whether one of the attempts succeeded.
unfoldable pub send_repeated : List Bool → Bool
send_repeated [] = false
send_repeated (sent ∷ rest) = sent || send_repeated rest

module _ (F : Floats) where
  open F use {F32, f32}

  pub record Controller : Type 0 where
    pub target_system : ℕ
    pub target_component : ℕ
    pub profile : VehicleProfile
    pub rtb_sent_at_ns : ℕ
    pub sever_sent_at_ns : ℕ
    pub sever_echo_baseline : ℕ

  engage_message_for : VehicleProfile → Controller → CommandLong
  engage_message_for ardu_copter c = record {
    target_system = c.target_system;
    target_component = c.target_component;
    command = 20;
    param1 = 0;
    param2 = 0;
    param3 = 0;
  }
  engage_message_for px4 c = record {
    target_system = c.target_system;
    target_component = c.target_component;
    command = 176;
    param1 = 1;
    param2 = px4_main_mode_auto;
    param3 = px4_sub_mode_auto_rtl;
  }

  unfoldable pub engage_rtb_message : Controller → CommandLong
  unfolding engage_message_for
  engage_rtb_message c = engage_message_for c.profile c

  unfoldable pub sever_gps : Controller → MavMonitor F → ℕ → List Bool → Controller × Bool
  sever_gps c m now attempts =
      let (name, _) = sever_gps_param c.profile in
      (
        record c {
          sever_echo_baseline = prior_count F (last_param_value F m name);
          sever_sent_at_ns = now;
        },
        send_repeated attempts,
      )

  unfoldable pub engage_rtb : Controller → ℕ → List Bool → Controller × Bool
  engage_rtb c now attempts = (record c { rtb_sent_at_ns = now }, send_repeated attempts)

  unfoldable pub reset : Controller → Controller
  reset c = record c { rtb_sent_at_ns = 0; sever_sent_at_ns = 0; sever_echo_baseline = 0 }

  -- Causality, type and value, and the dwell.
  unfoldable pub sever_echo_confirms : ParamEcho F → ℕ → ℕ → ℕ → Bool
  sever_echo_confirms echo sent_at baseline_count expected_ty =
      ltb sent_at echo.recv_ns
      && (f32.lt (f32.abs echo.value) (f32.lit 5 1) && echo.param_type == expected_ty)
      && leb sever_verify_dwell_echoes (echo.recv_count - baseline_count)

  pub record Poll : Type 0 where
    pub monitor : MavMonitor F
    pub expired : Bool

  abbrev pub ack_gate : Option (ℕ × ℕ) → ℕ → Bool
  ack_gate none sent_at = false
  ack_gate (some (result, ns)) sent_at = ltb sent_at ns && result == mav_result_accepted

  -- The ACK gate and the gate on the mode, its causality and the arming.
  unfoldable pub ack_ok : VehicleProfile → ℕ → MavMonitor F → Bool
  ack_ok profile sent_at m = ack_gate (last_ack_for_cmd F m (expected_ack_cmd profile)) sent_at

  unfoldable pub causal_mode : VehicleProfile → ℕ → MavMonitor F → Bool
  causal_mode profile sent_at m =
      ltb sent_at m.mode_changed_at_ns && is_rtl_mode profile m.current_custom_mode && is_armed F m

  unfoldable pub next_rtl : VehicleProfile → ℕ → ℕ → MavMonitor F → ℕ
  next_rtl profile consecutive last_hb m =
      if is_rtl_mode profile m.current_custom_mode && ltb last_hb m.last_heartbeat_ns
      then saturating_inc u8_max consecutive
      else if not (is_rtl_mode profile m.current_custom_mode)
      then 0
      else consecutive

  -- The loop of `verify_rtb_engaged`; `none` means that the polls given end before it returns.
  unfoldable pub rtb_loop : VehicleProfile → ℕ → ℕ → ℕ → List Poll → Option Bool
  rtb_loop profile sent_at consecutive last_hb [] = none
  rtb_loop profile sent_at consecutive last_hb (p ∷ ps) =
      let m = p.monitor in
      let count = next_rtl profile consecutive last_hb m in
      let rest = rtb_loop profile sent_at count m.last_heartbeat_ns ps in
      if ack_ok profile sent_at m
        && causal_mode profile sent_at m
        && leb rtb_verify_dwell_polls count
      then some true
      else if p.expired
      then some false
      else rest

  -- `entry` is the monitor at the call.
  unfoldable pub verify_rtb_engaged : Controller → MavMonitor F → List Poll → Option Bool
  verify_rtb_engaged c entry polls =
      if c.rtb_sent_at_ns == 0
      then some false
      else rtb_loop c.profile c.rtb_sent_at_ns 0 entry.last_heartbeat_ns polls

  abbrev pub confirms : Option (ParamEcho F) → ℕ → ℕ → ℕ → Bool
  confirms none sent_at baseline ty = false
  confirms (some e) sent_at baseline ty = sever_echo_confirms e sent_at baseline ty

  unfoldable pub sever_loop : (MavParamType → ℕ) → Controller → List Poll → Option Bool
  sever_loop wire c [] = none
  sever_loop wire c (p ∷ ps) =
      let (name, ty) = sever_gps_param c.profile in
      let echo = last_param_value F p.monitor name in
      let rest = sever_loop wire c ps in
      if confirms echo c.sever_sent_at_ns c.sever_echo_baseline (wire ty)
      then some true
      else if p.expired
      then some false
      else rest

  unfoldable pub verify_sever_engaged : (MavParamType → ℕ) → Controller → List Poll → Option Bool
  verify_sever_engaged wire c polls =
      if c.sever_sent_at_ns == 0 then some false else sever_loop wire c polls
