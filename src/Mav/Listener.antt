-- ===== src/Mav/Listener.antt =====
-- src/mav/mod.rs: the loop of `spawn_listener`, one datagram at a time, with the conditions of its
-- receive errors and closed channels. The `mavlink` crate's parser is a parameter. A datagram comes with
-- the instants at which the handler reads the clock; the diagnostic channel's send, which may drop, is
-- the last thing done with a message.
pub mod Forwarded
pub mod Counts
use flyingsquirrel.Base.{
  ℕ, ◌+◌, Bool, true, false, not, List, [], ◌∷◌, ◌++◌, Option, none, some, ltb, ◌==◌, if◌then◌else◌,
}
use flyingsquirrel.Base.Floats.{Floats}
use flyingsquirrel.Base.Lists.{length}
use flyingsquirrel.Types.{GpsFix}
use flyingsquirrel.Nav.Reckoner.{ImuSample}
use flyingsquirrel.Mav.Clock.{ClockAligner, align, unanchored}
use flyingsquirrel.Mav.Ingest.{
  MavlinkVersion, MavMessage, mavlink_version_of, gps_from_msg, imu_from_msg, gps_sensor_us,
  imu_sensor_us, gps_fix_is_plausible, imu_sample_is_plausible,
}
use flyingsquirrel.Mav.Monitor.{
  MavMonitor, SocketAddr, u64, record_heartbeat, record_ack, record_param_value,
  check_or_lock_source,
}

pub record MavFilter : Type 0 where
  pub allowed_source_ip : Option ℕ
  pub autopilot_sysid : Option ℕ
  pub allow_any_source_port : Bool

pub record MavStats : Type 0 where
  pub recv_total : ℕ
  pub dropped_source_ip : ℕ
  pub dropped_sysid : ℕ
  pub dropped_nonfinite : ℕ
  pub dropped_source_locked : ℕ
  pub parse_errors : ℕ

pub record Datagram : Type 0 where
  pub src : SocketAddr
  pub bytes : List ℕ
  pub now : ℕ
  pub arrival : ℕ

-- A result of `recv_from`: an error, transient or not, or a datagram, with which of the GPS and IMU
-- channels still have a receiver and whether the diagnostic one takes a message.
pub data Input : Type 0 where
  recv_error : Bool → Input
  received : Datagram → Bool → Bool → Bool → Input

-- `fetch_add(1)`.
abbrev pub fetch_inc : ℕ → ℕ
fetch_inc n = u64 (n + 1)

abbrev pub refuses : Option ℕ → ℕ → Bool
refuses none x = false
refuses (some want) x = not (x == want)

-- `self.remote.port()`, unless any port is allowed.
abbrev pub expected_port : MavFilter → ℕ → Option ℕ
expected_port filter remote_port = if filter.allow_any_source_port then none else some remote_port

abbrev pub magic : List ℕ → ℕ
magic [] = 0
magic (b ∷ _) = b

module _ (F : Floats) where
  -- What the handler sends on: to the GPS channel, the IMU channel or the diagnostic one.
  pub data Forward : Type 0 where
    to_gps : GpsFix F → Forward
    to_imu : ImuSample F → Forward
    to_other : MavMessage F → Forward

  pub record Listener : Type 0 where
    pub monitor : MavMonitor F
    pub stats : MavStats
    pub gps_aligner : ClockAligner
    pub imu_aligner : ClockAligner

  -- The state on entry to the loop.
  abbrev pub started : MavMonitor F → MavStats → Listener
  started monitor stats = record {
    monitor = monitor;
    stats = stats;
    gps_aligner = unanchored;
    imu_aligner = unanchored;
  }

  drop_parse : Listener → Listener
  drop_parse l = record l {
    stats = record l.stats { parse_errors = fetch_inc l.stats.parse_errors };
  }

  drop_ip : Listener → Listener
  drop_ip l = record l {
    stats = record l.stats { dropped_source_ip = fetch_inc l.stats.dropped_source_ip };
  }

  drop_sysid : Listener → Listener
  drop_sysid l = record l {
    stats = record l.stats { dropped_sysid = fetch_inc l.stats.dropped_sysid };
  }

  drop_locked : Listener → Listener
  drop_locked l = record l {
    stats = record l.stats { dropped_source_locked = fetch_inc l.stats.dropped_source_locked };
  }

  drop_nonfinite : Listener → Listener
  drop_nonfinite l = record l {
    stats = record l.stats { dropped_nonfinite = fetch_inc l.stats.dropped_nonfinite };
  }

  -- What the monitor records of a message from the locked source.
  unfoldable pub observe : MavMonitor F → ℕ → MavMessage F → MavMonitor F
  observe m now (MavMessage.heartbeat hb) =
      (record_heartbeat F m now hb.custom_mode hb.base_mode hb.system_status hb.autopilot).0
  observe m now (MavMessage.command_ack command result) = record_ack F m now command result
  observe m now (MavMessage.param_value param_id value param_type) =
      record_param_value F m now param_id value param_type
  observe m now _ = m

  unfoldable pub forward_gps : Listener → MavMessage F → ℕ → GpsFix F → Listener × Option Forward
  unfolding drop_nonfinite
  forward_gps l msg arrival fix =
      let stamped = align l.gps_aligner (gps_sensor_us F msg) arrival in
      let aligned = record l { gps_aligner = stamped.0 } in
      let fix = record fix { mono_ns = stamped.1 } in
      if gps_fix_is_plausible F fix
      then (aligned, some (Forward.to_gps fix))
      else (drop_nonfinite aligned, none)

  unfoldable pub forward_imu : Listener → MavMessage F → ℕ → ImuSample F → Listener × Option Forward
  unfolding drop_nonfinite
  forward_imu l msg arrival sample =
      let stamped = align l.imu_aligner (imu_sensor_us F msg) arrival in
      let aligned = record l { imu_aligner = stamped.0 } in
      let sample = record sample { mono_ns = stamped.1 } in
      if imu_sample_is_plausible F sample
      then (aligned, some (Forward.to_imu sample))
      else (drop_nonfinite aligned, none)

  unfoldable pub dispatch_imu :
      Listener → MavMessage F → ℕ → Option (ImuSample F) → Listener × Option Forward
  dispatch_imu l msg arrival none = (l, some (Forward.to_other msg))
  dispatch_imu l msg arrival (some sample) = forward_imu l msg arrival sample

  unfoldable pub dispatch :
      Listener → MavMessage F → ℕ → Option (GpsFix F) → Listener × Option Forward
  dispatch l msg arrival none = dispatch_imu l msg arrival (imu_from_msg F arrival msg)
  dispatch l msg arrival (some fix) = forward_gps l msg arrival fix

  unfoldable pub on_locked : Listener → Datagram → MavMessage F → Listener × Option Forward
  on_locked l d msg =
      let seen = record l { monitor = observe l.monitor d.now msg } in
      dispatch seen msg d.arrival (gps_from_msg F d.arrival msg)

  -- What became of a message that was handed to a channel: taken; lost, because the diagnostic channel
  -- was full or closed; or refused by a closed GPS or IMU channel, at which the loop breaks.
  pub data Delivery : Type 0 where
    taken : Forward → Delivery
    lost : MavMessage F → Delivery
    refused : Forward → Delivery

  -- `gps_tx.send`, `imu_tx.send` and `other_tx.try_send`; `true` beside what was handed on where the loop
  -- goes on.
  unfoldable pub deliver : Bool → Bool → Bool → Option Forward → List Delivery × Bool
  deliver gps_open imu_open other_free none = ([], true)
  deliver gps_open imu_open other_free (some (Forward.to_gps fix)) =
      if gps_open
      then (Delivery.taken (Forward.to_gps fix) ∷ [], true)
      else (Delivery.refused (Forward.to_gps fix) ∷ [], false)
  deliver gps_open imu_open other_free (some (Forward.to_imu sample)) =
      if imu_open
      then (Delivery.taken (Forward.to_imu sample) ∷ [], true)
      else (Delivery.refused (Forward.to_imu sample) ∷ [], false)
  deliver gps_open imu_open other_free (some (Forward.to_other msg)) =
      if other_free
      then (Delivery.taken (Forward.to_other msg) ∷ [], true)
      else (Delivery.lost msg ∷ [], true)

  -- The loop goes on with what follows, or breaks.
  unfoldable pub resume :
      Listener × List Delivery → Listener → List Delivery × Bool → Listener × List Delivery
  resume rest l (handed, true) = (rest.0, handed ++ rest.1)
  resume rest l (handed, false) = (l, handed)

  module _ (filter : MavFilter) (remote_port : ℕ) where
    unfoldable pub on_message :
        Listener → Datagram → Option (ℕ × MavMessage F) → Listener × Option Forward
    unfolding drop_parse drop_sysid drop_locked
    on_message l d none = (drop_parse l, none)
    on_message l d (some (system_id, msg)) =
        let lock = check_or_lock_source F l.monitor d.src (expected_port filter remote_port) in
        let held = record l { monitor = lock.0 } in
        if refuses filter.autopilot_sysid system_id
        then (drop_sysid l, none)
        else if lock.1
        then on_locked held d msg
        else (drop_locked held, none)

    module _ (read_versioned_msg : MavlinkVersion → List ℕ → Option (ℕ × MavMessage F)) where
      unfoldable pub on_datagram : Listener → Datagram → Listener × Option Forward
      unfolding drop_parse drop_ip
      on_datagram l d =
          let l = record l {
            stats = record l.stats { recv_total = fetch_inc l.stats.recv_total };
          } in
          if ltb (length d.bytes) 8
          then (drop_parse l, none)
          else if refuses filter.allowed_source_ip d.src.ip
          then (drop_ip l, none)
          else on_message l d (read_versioned_msg (mavlink_version_of (magic d.bytes)) d.bytes)

      -- One turn of the loop, and whether it goes on: it breaks at a fatal receive error and at a
      -- closed GPS or IMU channel.
      unfoldable pub turn : Listener → Input → Listener × (List Delivery × Bool)
      unfolding deliver
      turn l (Input.recv_error transient) = (l, ([], transient))
      turn l (Input.received d gps_open imu_open other_free) =
          let r = on_datagram l d in (r.0, deliver gps_open imu_open other_free r.1)

      unfoldable pub listen : Listener → List Input → Listener × List Delivery
      listen l [] = (l, [])
      listen l (i ∷ is) = let r = turn l i in let rest = listen r.0 is in resume rest r.0 r.1
