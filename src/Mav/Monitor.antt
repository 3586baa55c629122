-- ===== src/Mav/Monitor.antt =====
-- src/mav/monitor.rs: `MavMonitor`. Each method is one atomic step of the listener or a reader, and a
-- method that writes returns the new monitor. Times are nanoseconds since boot.
pub mod Acks
pub mod Source
use flyingsquirrel.Base.{
  ℕ, ◌+◌, ◌*◌, ◌-◌, ◌/◌, ◌%◌, ◌^◌, Bool, true, false, not, ◌&&◌, ◌||◌, List, [], ◌∷◌, Option, none,
  some, leb, ◌==◌, if◌then◌else◌, saturating_inc, u64_max,
}
use native.Mathlib.Decide.{ℕ_discrete}
use flyingsquirrel.Base.Floats.{Floats}
use flyingsquirrel.Base.Maps.{lookup, insert, bound}

-- `as u64`.
abbrev pub u64 : ℕ → ℕ
u64 n = n % 2 ^ 64

unfoldable pub Name-discrete : Discrete (List ℕ)
Name-discrete = hlevel ℕ_discrete

-- `SocketAddr`, as an address and a port.
pub record SocketAddr : Type 0 where
  pub ip : ℕ
  pub port : ℕ

pub SocketAddr-discrete : Discrete SocketAddr
SocketAddr-discrete = hlevel ℕ_discrete

-- The result and the time of an ACK.
abbrev pub ack_stamp : ℕ × ℕ → ℕ
ack_stamp (result, ns) = ns

abbrev pub map_cap : ℕ
map_cap = 64

-- `take_while(|&b| b != 0)`.
unfoldable pub take_name : List ℕ → List ℕ
take_name [] = []
take_name (b ∷ bs) = let rest = take_name bs in if b == 0 then [] else b ∷ rest

module _ (F : Floats) where
  open F use {F32}

  pub record ParamEcho : Type 0 where
    pub value : F32
    pub param_type : ℕ
    pub recv_ns : ℕ
    pub recv_count : ℕ

  pub record MavMonitor : Type 0 where
    pub last_heartbeat_ns : ℕ
    pub current_custom_mode : ℕ
    pub mode_changed_at_ns : ℕ
    pub heartbeat_ever : Bool
    pub current_base_mode : ℕ
    pub current_autopilot : ℕ
    pub system_status : ℕ
    pub last_ack_packed : ℕ
    pub last_ack_ns : ℕ
    pub acks_by_cmd : List (ℕ × (ℕ × ℕ))
    pub params_by_name : List (List ℕ × ParamEcho)
    pub locked_source : Option SocketAddr

  unfoldable pub new : MavMonitor
  new = record {
    last_heartbeat_ns = 0;
    current_custom_mode = 0;
    mode_changed_at_ns = 0;
    heartbeat_ever = false;
    current_base_mode = 0;
    current_autopilot = 0;
    system_status = 0;
    last_ack_packed = 0;
    last_ack_ns = 0;
    acks_by_cmd = [];
    params_by_name = [];
    locked_source = none;
  }

  unfoldable pub record_heartbeat : MavMonitor → ℕ → ℕ → ℕ → ℕ → ℕ → MavMonitor × Bool
  record_heartbeat m now custom_mode base_mode system_status autopilot =
      let ns = u64 now in
      let mode_changed = not (m.current_custom_mode == custom_mode) in
      (
        record m {
          last_heartbeat_ns = ns;
          current_custom_mode = custom_mode;
          current_base_mode = base_mode;
          system_status = system_status;
          current_autopilot = autopilot;
          mode_changed_at_ns = if mode_changed then ns else m.mode_changed_at_ns;
          heartbeat_ever = true;
        },
        mode_changed || not m.heartbeat_ever,
      )

  -- `(base_mode & 0x80) != 0` of a byte.
  unfoldable pub is_armed : MavMonitor → Bool
  is_armed m = m.current_base_mode / 128 % 2 == 1

  -- `command << 16 | result` of two 16-bit numbers.
  unfoldable pub record_ack : MavMonitor → ℕ → ℕ → ℕ → MavMonitor
  record_ack m now command result = record m {
    last_ack_packed = command * 2 ^ 16 + result;
    last_ack_ns = u64 now;
    acks_by_cmd =
        bound ℕ_discrete ack_stamp map_cap
          (insert ℕ_discrete command (result, u64 now) m.acks_by_cmd);
  }

  unfoldable pub last_ack : MavMonitor → Option (ℕ × ℕ)
  last_ack m =
      if m.last_ack_packed == 0
      then none
      else some (m.last_ack_packed / 2 ^ 16, m.last_ack_packed % 2 ^ 16)

  unfoldable pub last_ack_for_cmd : MavMonitor → ℕ → Option (ℕ × ℕ)
  last_ack_for_cmd m command = lookup ℕ_discrete command m.acks_by_cmd

  abbrev pub echo_stamp : ParamEcho → ℕ
  echo_stamp e = e.recv_ns

  -- The count of the entry, or of the one that `or_insert` makes.
  abbrev pub prior_count : Option ParamEcho → ℕ
  prior_count none = 0
  prior_count (some e) = e.recv_count

  abbrev pub echo_entry : MavMonitor → ℕ → List ℕ → F32 → ℕ → ParamEcho
  echo_entry m now name value param_type = record {
    value = value;
    param_type = param_type;
    recv_ns = u64 now;
    recv_count = saturating_inc u64_max (prior_count (lookup Name-discrete name m.params_by_name));
  }

  record_named : MavMonitor → ℕ → List ℕ → F32 → ℕ → MavMonitor
  record_named m now [] value param_type = m
  record_named m now (b ∷ bs) value param_type = record m {
    params_by_name = bound Name-discrete echo_stamp map_cap (
        insert Name-discrete (b ∷ bs) (echo_entry m now (b ∷ bs) value param_type)
          m.params_by_name);
  }

  unfoldable pub record_param_value : MavMonitor → ℕ → List ℕ → F32 → ℕ → MavMonitor
  unfolding record_named
  record_param_value m now param_id value param_type =
      record_named m now (take_name param_id) value param_type

  unfoldable pub last_param_value : MavMonitor → List ℕ → Option ParamEcho
  last_param_value m name = lookup Name-discrete name m.params_by_name

  -- `-` stops at 0, as `saturating_sub` does.
  unfoldable pub heartbeat_fresh : MavMonitor → ℕ → ℕ → Bool
  heartbeat_fresh m now staleness_ns =
      m.heartbeat_ever && leb (u64 now - m.last_heartbeat_ns) staleness_ns

  abbrev refuses_port : Option ℕ → SocketAddr → Bool
  refuses_port none src = false
  refuses_port (some want) src = not (src.port == want)

  abbrev same_source : SocketAddr → SocketAddr → Bool
  same_source a b = a.ip == b.ip && a.port == b.port

  unfoldable pub check_or_lock_source : MavMonitor → SocketAddr → Option ℕ → MavMonitor × Bool
  check_or_lock_source m src expected_port = elim m.locked_source [
    | some locked ↦ (m, same_source locked src)
    | none ↦
        if refuses_port expected_port src
        then (m, false)
        else (record m { locked_source = some src }, true)
  ]
