-- ===== src/Tests/Ingest.antt =====
-- Runs of src/mav/mod.rs: the clock, the listener and the watchdog.
use flyingsquirrel.Base.{
  ℕ, ◌+◌, ◌≤◌, ◌≡◌, refl, true, false, List, [], ◌∷◌, ◌++◌, Option, none, some, arith,
}
use flyingsquirrel.Base.Int.{pos, ◌+ℤ◌, ◌-ℤ◌, ◌*ℤ◌}
use flyingsquirrel.Base.Fixed.{fin, fixed}
use flyingsquirrel.Base.Lists.{length, All}
use flyingsquirrel.Types.{GpsFix}
use flyingsquirrel.Mav.Clock.{align, unanchored}
use flyingsquirrel.Mav.Clock.Bounds.{Near, align_all, IsMonotone, align_all-Near}
use flyingsquirrel.Mav.Ingest.{
  MavlinkVersion, MavMessage, GpsRawInt, mavlink_version_of, gps_fix_is_plausible, gps_from_msg,
  gps_sensor_us,
}
use flyingsquirrel.Mav.Monitor.{MavMonitor, SocketAddr, new, check_or_lock_source, heartbeat_fresh}
use flyingsquirrel.Mav.Listener.{
  MavFilter, MavStats, Datagram, Input, Listener, started, refuses, magic, on_datagram, on_message,
  on_locked, observe, dispatch, forward_gps, listen,
}
use flyingsquirrel.Mav.Listener.Forwarded.{handle, handle-fix, Vetted}
use flyingsquirrel.Mav.Listener.Counts.{Balanced, BreaksLast, listen-Balanced}
use flyingsquirrel.Mav.Watchdog.{waiting, tick}
use flyingsquirrel.Mav.Watchdog.Links.{link_replay, tick_all, ticks_tell}

-- Three messages: the second late by 40 ms, the third with a stamp centuries ahead.
abbrev stream : List (Option ℕ × ℕ)
stream =
    (some 1000000, 5000000000)
    ∷ (some 1100000, 5140000000)
    ∷ (some 9000000000000000, 5200000000)
    ∷ []

align_all-Near_example : All Near (align_all unanchored stream)
unfolding IsMonotone
align_all-Near_example =
    align_all-Near unanchored 4000000000 stream tt (omega arith, (omega arith, (omega arith, tt)))

abbrev peer : SocketAddr
peer = record { ip = 10; port = 14550 }

abbrev stranger : SocketAddr
stranger = record { ip = 10; port = 9999 }

abbrev raw_gps : GpsRawInt
raw_gps = record {
  time_usec = 1000000;
  fix_type = 3;
  lat = pos 473977418;
  lon = pos 85455939;
  alt = pos 400000;
  eph = 65535;
  vel = 500;
  cog = 65535;
  satellites_visible = 9;
}

-- A parser for which every frame is that message, of system 1.
abbrev parser : MavlinkVersion → List ℕ → Option (ℕ × MavMessage fixed)
parser version bytes = some (1, MavMessage.gps_raw_int raw_gps)

abbrev strict : MavFilter
strict = record {
  allowed_source_ip = some 10;
  autopilot_sysid = some 1;
  allow_any_source_port = false;
}

abbrev no_counts : MavStats
no_counts = record {
  recv_total = 0;
  dropped_source_ip = 0;
  dropped_sysid = 0;
  dropped_nonfinite = 0;
  dropped_source_locked = 0;
  parse_errors = 0;
}

abbrev listening : Listener fixed
listening = started fixed (new fixed) no_counts

abbrev locked : Listener fixed
locked = record listening { monitor = record (new fixed) { locked_source = some peer } }

abbrev frame_from : SocketAddr → Datagram
frame_from src = record {
  src = src;
  bytes = 253 ∷ 0 ∷ 0 ∷ 0 ∷ 0 ∷ 0 ∷ 0 ∷ 0 ∷ [];
  now = 7000000000;
  arrival = 7000000000;
}

-- The speed is known, the course and the dilution are not. Latitude and longitude round to zero.
abbrev forwarded : GpsFix fixed
forwarded = record {
  mono_ns = 7000000000;
  lat_deg = fin (pos 0);
  lon_deg = fin (pos 0);
  alt_m = fin (pos 400000);
  speed_mps = some (fin (pos 5000));
  course_deg = none;
  hdop = none;
  sats = some 9;
}

handle-fix_example :
    (8 ≤ length (frame_from peer).bytes)
    × (refuses strict.allowed_source_ip (frame_from peer).src.ip ≡ false)
    × Vetted fixed strict 14550 parser
        (frame_from peer)
        forwarded
        (parser (mavlink_version_of (magic (frame_from peer).bytes)) (frame_from peer).bytes)
        (handle fixed strict 14550 parser listening (frame_from peer)).0
unfolding on_datagram on_message on_locked observe dispatch forward_gps gps_from_msg gps_sensor_us
    gps_fix_is_plausible check_or_lock_source align new ◌+ℤ◌ ◌-ℤ◌ ◌*ℤ◌
handle-fix_example =
    handle-fix fixed strict 14550 parser listening (frame_from peer) forwarded tt refl

abbrev inputs : List Input
inputs =
    Input.received (frame_from stranger) true true false
    ∷ Input.recv_error true
    ∷ Input.received (frame_from peer) true true false
    ∷ []

listen-Balanced_example :
    let r = listen fixed strict 14550 parser listening inputs in
    Balanced fixed strict 14550 parser r.0.stats (0 + length r.1) × BreaksLast fixed r.1
listen-Balanced_example = listen-Balanced fixed strict 14550 parser listening inputs 0 refl

abbrev beating : ℕ → MavMonitor fixed
beating ns = record (new fixed) { last_heartbeat_ns = ns; heartbeat_ever = true }

-- A heartbeat at 1 s, read at 1 s and at 4 s, and then fresh again at 5 s.
abbrev watched : List (ℕ × MavMonitor fixed × MavMonitor fixed)
watched =
    (1000000000, beating 1000000000, beating 1000000000)
    ∷ (4000000000, beating 1000000000, beating 1000000000)
    ∷ []

ticks_tell_example :
    let before = tick_all fixed 2000000000 waiting watched in
    let later = beating 5000000000 in
    link_replay fixed
      (some false)
      (before.1 ++ (tick fixed 2000000000 before.0 5000000000 later later).1)
    ≡ some (heartbeat_fresh fixed later 5000000000 2000000000)
ticks_tell_example =
    ticks_tell fixed 2000000000 watched 5000000000 (beating 5000000000) (beating 5000000000)
