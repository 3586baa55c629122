-- ===== src/Mav/Watchdog.antt =====
-- src/mav/mod.rs: the heartbeat watchdog of `spawn_heartbeat_watchdog`, one tick at a time. A tick reads
-- the monitor for the heartbeat's freshness and then again, when the listener may have moved on, for
-- the mode. Its events carry the instant of the tick.
pub mod Links
use flyingsquirrel.Base.{ℕ, Bool, true, false, List, [], ◌∷◌, ◌++◌, ltb, if◌then◌else◌}
use flyingsquirrel.Base.Floats.{Floats, nought}
use flyingsquirrel.Types.{SpoofKind, NavStateKind, SpoofingEvent}
use flyingsquirrel.Mav.Monitor.{MavMonitor, heartbeat_fresh}

pub record Watchdog : Type 0 where
  pub last_state_up : Bool
  pub have_seen_heartbeat : Bool
  pub last_mode_change_ns : ℕ

abbrev pub waiting : Watchdog
waiting = record { last_state_up = false; have_seen_heartbeat = false; last_mode_change_ns = 0 }

-- `!=` of two truth values.
abbrev pub differ : Bool → Bool → Bool
differ true false = true
differ false true = true
differ _ _ = false

module _ (F : Floats) where
  open F use {f32}

  abbrev watch_event : ℕ → SpoofKind → SpoofingEvent F
  watch_event now kind = record {
    mono_ns = now;
    kind = kind;
    state = NavStateKind.normal;
    residual_m = nought f32;
  }

  unfoldable pub link_event : ℕ → Bool → SpoofingEvent F
  link_event now up = watch_event now (if up then SpoofKind.link_restored else SpoofKind.link_down)

  unfoldable pub mode_change_event : ℕ → SpoofingEvent F
  mode_change_event now = watch_event now SpoofKind.pilot_mode_change

  -- The ticks until a first heartbeat, and those from then on.
  unfoldable pub await_heartbeat :
      Watchdog → ℕ → Bool → MavMonitor F → Watchdog × List (SpoofingEvent F)
  await_heartbeat w now false m = (w, [])
  await_heartbeat w now true m = (
    record {
      last_state_up = true;
      have_seen_heartbeat = true;
      last_mode_change_ns = m.mode_changed_at_ns;
    },
    link_event now true ∷ [],
  )

  unfoldable pub watch : Watchdog → ℕ → Bool → MavMonitor F → Watchdog × List (SpoofingEvent F)
  watch w now up m =
      let link = if differ up w.last_state_up then link_event now up ∷ [] else [] in
      let changed = ltb w.last_mode_change_ns m.mode_changed_at_ns in
      (
        record w {
          last_state_up = up;
          last_mode_change_ns = if changed then m.mode_changed_at_ns else w.last_mode_change_ns;
        },
        link ++ (if changed then mode_change_event now ∷ [] else []),
      )

  unfoldable pub tick :
      ℕ → Watchdog → ℕ → MavMonitor F → MavMonitor F → Watchdog × List (SpoofingEvent F)
  tick staleness_ns w now m later =
      let up = heartbeat_fresh F m now staleness_ns in
      if w.have_seen_heartbeat then watch w now up later else await_heartbeat w now up later
