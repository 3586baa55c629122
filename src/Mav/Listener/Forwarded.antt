-- ===== src/Mav/Listener/Forwarded.antt =====
-- src/mav/mod.rs: what gets through the listener of `spawn_listener`, and from whom.
use flyingsquirrel.Base.{
  ℕ, ◌≤◌, ◌≡◌, ◌≢◌, refl, ◌∙◌, ap, true, false, List, Option, none, some, arith,
}
use flyingsquirrel.Base.Floats.{Floats}
use flyingsquirrel.Base.Lists.{length}
use flyingsquirrel.Types.{GpsFix}
use flyingsquirrel.Nav.Reckoner.{ImuSample}
use flyingsquirrel.Mav.Clock.Bounds.{IsPast, Near, align-Near}
use flyingsquirrel.Mav.Ingest.{
  MavlinkVersion, MavMessage, mavlink_version_of, gps_from_msg, imu_from_msg, gps_sensor_us,
  gps_fix_is_plausible,
}
use flyingsquirrel.Mav.Monitor.{
  SocketAddr, record_heartbeat, record_ack, record_param_value, check_or_lock_source,
}
use flyingsquirrel.Mav.Listener.{
  MavFilter, Datagram, Forward, Listener, refuses, expected_port, on_datagram, on_message,
  on_locked, dispatch, dispatch_imu, fetch_inc, magic, forward_gps, forward_imu, observe,
}

module _ (F : Floats) (filter : MavFilter) (remote_port : ℕ)
    (read_versioned_msg : MavlinkVersion → List ℕ → Option (ℕ × MavMessage F)) where
  abbrev pub handle : Listener F → Datagram → Listener F × Option (Forward F)
  handle = on_datagram F filter remote_port read_versioned_msg

  refused_step :
      (l : Listener F) (src a : SocketAddr) (port : Option ℕ)
      → l.monitor.locked_source ≡ some a
      → a ≢ src
      → check_or_lock_source F l.monitor src port ≡ (l.monitor, false)
  unfolding check_or_lock_source
  refused_step l src a port e ne = ground arith

  abbrev Untouched : Listener F → Listener F × Option (Forward F) → Type 0
  Untouched l (l', sent) =
      (l'.monitor ≡ l.monitor)
      × (l'.gps_aligner ≡ l.gps_aligner)
      × (l'.imu_aligner ≡ l.imu_aligner)
      × (sent ≡ none)

  on_message-foreign :
      (l : Listener F) (d : Datagram) (a : SocketAddr) (msg : Option (ℕ × MavMessage F))
      → l.monitor.locked_source ≡ some a
      → a ≢ d.src
      → Untouched l (on_message F filter remote_port l d msg)
  unfolding on_message
  on_message-foreign l d a none e ne = (refl, refl, refl, refl)
  on_message-foreign l d a (some (id, msg)) e ne =
      rw (refused_step l d.src a (expected_port filter remote_port) e ne) (ground arith)

  -- Behind the lock on `a`, a datagram from elsewhere leaves the monitor and both clock aligners as
  -- they were, and nothing of it is sent on, whatever it holds.
  pub handle-foreign :
      (l : Listener F) (d : Datagram) (a : SocketAddr)
      → l.monitor.locked_source ≡ some a
      → a ≢ d.src
      → ((handle l d).0.monitor ≡ l.monitor)
        × ((handle l d).0.gps_aligner ≡ l.gps_aligner)
        × ((handle l d).0.imu_aligner ≡ l.imu_aligner)
        × ((handle l d).1 ≡ none)
  unfolding on_datagram
  handle-foreign l d a e ne =
      let arrived = record l {
        stats = record l.stats { recv_total = fetch_inc l.stats.recv_total };
      } in
      let parsed = read_versioned_msg (mavlink_version_of (magic d.bytes)) d.bytes in
      let core = on_message-foreign arrived d a parsed e ne in ground (arith, core)

  observe-locked :
      (l : Listener F) (now : ℕ) (msg : MavMessage F)
      → (observe F l.monitor now msg).locked_source ≡ l.monitor.locked_source
  unfolding observe record_heartbeat record_ack record_param_value
  observe-locked l now msg = ground arith

  accepted-locked :
      (l : Listener F) (src : SocketAddr) (port : Option ℕ)
      → (check_or_lock_source F l.monitor src port).1 ≡ true
      → (check_or_lock_source F l.monitor src port).0.locked_source ≡ some src
  unfolding check_or_lock_source
  accepted-locked l src port h = ground arith

  abbrev Stamped : Listener F → ℕ → GpsFix F → Listener F × Option (Forward F) → Type 0
  Stamped l arrival fix (l', sent) =
      (gps_fix_is_plausible F fix ≡ true) × Near (arrival, fix.mono_ns) × (l'.monitor ≡ l.monitor)

  dispatch_imu_no_fix :
      (l : Listener F) (msg : MavMessage F) (arrival : ℕ) (o : Option (ImuSample F))
      (fix : GpsFix F)
      → (dispatch_imu F l msg arrival o).1 ≢ some (Forward.to_gps fix)
  unfolding dispatch_imu forward_imu
  dispatch_imu_no_fix l msg arrival none fix h = ground arith
  dispatch_imu_no_fix l msg arrival (some s) fix h = ground arith

  forward_gps-Stamped :
      (l : Listener F) (msg : MavMessage F) (arrival : ℕ) (f fix : GpsFix F)
      → IsPast l.gps_aligner.anchor arrival
      → (forward_gps F l msg arrival f).1 ≡ some (Forward.to_gps fix)
      → Stamped l arrival fix (forward_gps F l msg arrival f)
  unfolding forward_gps
  forward_gps-Stamped l msg arrival f fix past h =
      let near = align-Near l.gps_aligner (gps_sensor_us F msg) arrival past in ground (arith, near)

  dispatch-Stamped :
      (l : Listener F) (msg : MavMessage F) (arrival : ℕ) (o : Option (GpsFix F)) (fix : GpsFix F)
      → IsPast l.gps_aligner.anchor arrival
      → (dispatch F l msg arrival o).1 ≡ some (Forward.to_gps fix)
      → Stamped l arrival fix (dispatch F l msg arrival o)
  unfolding dispatch dispatch_imu forward_gps forward_imu
  dispatch-Stamped l msg arrival none fix past h =
      absurd (dispatch_imu_no_fix l msg arrival (imu_from_msg F arrival msg) fix h)
  dispatch-Stamped l msg arrival (some f) fix past h =
      forward_gps-Stamped l msg arrival f fix past h

  on_locked-fix :
      (l : Listener F) (d : Datagram) (fix : GpsFix F) (msg : MavMessage F)
      → IsPast l.gps_aligner.anchor d.arrival
      → (on_locked F l d msg).1 ≡ some (Forward.to_gps fix)
      → (gps_fix_is_plausible F fix ≡ true)
        × Near (d.arrival, fix.mono_ns)
        × ((on_locked F l d msg).0.monitor.locked_source ≡ l.monitor.locked_source)
  unfolding on_locked
  on_locked-fix l d fix msg past h =
      let seen = record l { monitor = observe F l.monitor d.now msg } in
      let o = gps_from_msg F d.arrival msg in
      let (plausible, near, kept) = dispatch-Stamped seen msg d.arrival o fix past h in
      (plausible, near, ap (λ m. m.locked_source) kept ∙ observe-locked l d.now msg)

  on_message-fix :
      (l : Listener F) (d : Datagram) (fix : GpsFix F) (id : ℕ) (msg : MavMessage F)
      → IsPast l.gps_aligner.anchor d.arrival
      → (on_message F filter remote_port l d (some (id, msg))).1 ≡ some (Forward.to_gps fix)
      → (gps_fix_is_plausible F fix ≡ true)
        × Near (d.arrival, fix.mono_ns)
        × (refuses filter.autopilot_sysid id ≡ false)
        × ((on_message F filter remote_port l d (some (id, msg))).0.monitor.locked_source
            ≡ some d.src)
  unfolding on_message
  on_message-fix l d fix id msg past h =
      let port = expected_port filter remote_port in
      let lock = check_or_lock_source F l.monitor d.src port in
      let core = on_locked-fix (record l { monitor = lock.0 }) d fix msg past in
      let held = accepted-locked l d.src port in ground (arith, core, held)

  abbrev pub Vetted : Datagram → GpsFix F → Option (ℕ × MavMessage F) → Listener F → Type 0
  Vetted d fix parsed l' =
      (gps_fix_is_plausible F fix ≡ true)
      × Near (d.arrival, fix.mono_ns)
      × (l'.monitor.locked_source ≡ some d.src)
      × ((id : ℕ) × (msg : MavMessage F) × (parsed ≡ some (id, msg))
          × (refuses filter.autopilot_sysid id ≡ false))

  on_message-Vetted :
      (l : Listener F) (d : Datagram) (fix : GpsFix F) (parsed : Option (ℕ × MavMessage F))
      → IsPast l.gps_aligner.anchor d.arrival
      → (on_message F filter remote_port l d parsed).1 ≡ some (Forward.to_gps fix)
      → Vetted d fix parsed (on_message F filter remote_port l d parsed).0
  unfolding on_message
  on_message-Vetted l d fix none past h = ground arith
  on_message-Vetted l d fix (some (id, msg)) past h =
      let (plausible, near, sysid, held) = on_message-fix l d fix id msg past h in
      (plausible, near, held, (id, msg, refl, sysid))

  -- A fix reaches the GPS channel only if all of this holds: the datagram has the 8 bytes of a frame, it
  -- comes from the address that is allowed and from the source that holds the lock afterwards (a lock that
  -- this very datagram may have taken, whatever its message is), it parses to a message whose
  -- system id is the one wanted, and the fix is plausible and stamped within 2 s of the arrival (given
  -- that the aligner's anchor, if any, is no later than that arrival).
  pub handle-fix :
      (l : Listener F) (d : Datagram) (fix : GpsFix F)
      → IsPast l.gps_aligner.anchor d.arrival
      → (handle l d).1 ≡ some (Forward.to_gps fix)
      → (8 ≤ length d.bytes)
        × (refuses filter.allowed_source_ip d.src.ip ≡ false)
        × Vetted d fix
            (read_versioned_msg (mavlink_version_of (magic d.bytes)) d.bytes)
            (handle l d).0
  unfolding on_datagram
  handle-fix l d fix past h =
      let arrived = record l {
        stats = record l.stats { recv_total = fetch_inc l.stats.recv_total };
      } in
      let parsed = read_versioned_msg (mavlink_version_of (magic d.bytes)) d.bytes in
      let core = on_message-Vetted arrived d fix parsed past in ground (arith, core)
