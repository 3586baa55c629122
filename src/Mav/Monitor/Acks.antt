-- ===== src/Mav/Monitor/Acks.antt =====
-- src/mav/monitor.rs: what the listener's records let a reader look up.
use flyingsquirrel.Base.{
  ℕ, ◌+◌, ◌^◌, ◌≤◌, ◌<◌, ◌≡◌, ◌≢◌, refl, ◌⊎◌, ◌↔◌, true, false, List, [], ◌∷◌, none, some,
  saturating_inc, u64_max, arith,
}
use native.Mathlib.Decide.{ℕ_discrete}
use flyingsquirrel.Base.Floats.{Floats}
use flyingsquirrel.Base.Lists.{length}
use flyingsquirrel.Base.Maps.{Older, length-bound-insert, lookup-bound-insert}
use flyingsquirrel.Mav.Monitor.{
  MavMonitor, ack_stamp, echo_stamp, prior_count, map_cap, Name-discrete, take_name, record_ack,
  last_ack_for_cmd, record_param_value, record_named, last_param_value, record_heartbeat,
  heartbeat_fresh, echo_entry, u64,
}

module _ (F : Floats) where
  open F use {F32}

  -- An ACK that is newer than all the recorded ones is what a lookup of its command then finds, the
  -- ACK of any other command is kept or evicted and never changed, and 64 commands stay the limit.
  pub last_ack_for_cmd-record_ack :
      (m : MavMonitor F) (now command result other : ℕ)
      → Older ℕ_discrete ack_stamp (u64 now) m.acks_by_cmd
      → length m.acks_by_cmd ≤ map_cap
      → other ≢ command
      → let k = record_ack F m now command result in
        (last_ack_for_cmd F k command ≡ some (result, u64 now))
        × ((last_ack_for_cmd F k other ≡ last_ack_for_cmd F m other)
            ⊎ (last_ack_for_cmd F k other ≡ none))
        × (length k.acks_by_cmd ≤ map_cap)
  unfolding record_ack last_ack_for_cmd
  last_ack_for_cmd-record_ack m now command result other o h n =
      let (new, others) =
        lookup-bound-insert ℕ_discrete ack_stamp map_cap command (result, u64 now) m.acks_by_cmd
          (omega arith) o in
      (
        new,
        others other n,
        length-bound-insert ℕ_discrete ack_stamp map_cap command (result, u64 now) m.acks_by_cmd h,
      )

  abbrev Recorded : MavMonitor F → ℕ → List ℕ → F32 → ℕ → List ℕ → MavMonitor F → Type 0
  Recorded m now name value param_type other k =
      (last_param_value F k name
        ≡ some (record {
          value = value;
          param_type = param_type;
          recv_ns = u64 now;
          recv_count = saturating_inc u64_max (prior_count F (last_param_value F m name));
        }))
      × ((last_param_value F k other ≡ last_param_value F m other)
          ⊎ (last_param_value F k other ≡ none))
      × (length k.params_by_name ≤ map_cap)

  record_named-Recorded :
      (m : MavMonitor F) (now : ℕ) (name : List ℕ) (value : F32) (param_type : ℕ) (other : List ℕ)
      → Older Name-discrete (echo_stamp F) (u64 now) m.params_by_name
      → length m.params_by_name ≤ map_cap
      → name ≢ []
      → other ≢ name
      → Recorded m now name value param_type other (record_named F m now name value param_type)
  unfolding record_named last_param_value
  record_named-Recorded m now [] value param_type other o h n d = absurd (n refl)
  record_named-Recorded m now (b ∷ bs) value param_type other o h n d =
      let entry = echo_entry F m now (b ∷ bs) value param_type in
      let kept =
        lookup-bound-insert Name-discrete (echo_stamp F) map_cap (b ∷ bs) entry m.params_by_name
          (omega arith) o in
      (
        kept.0,
        kept.1 other d,
        length-bound-insert Name-discrete (echo_stamp F) map_cap (b ∷ bs) entry m.params_by_name h,
      )

  -- A PARAM_VALUE that is newer than all the recorded ones is what a lookup of its trimmed name then
  -- finds, unless that is empty, with the receipt count of that name one higher, up to the greatest
  -- `u64`; another name's echo is kept or evicted and never changed, and 64 names stay the limit.
  pub last_param_value-record :
      (m : MavMonitor F) (now : ℕ) (param_id : List ℕ) (value : F32) (param_type : ℕ)
      (other : List ℕ)
      → Older Name-discrete (echo_stamp F) (u64 now) m.params_by_name
      → length m.params_by_name ≤ map_cap
      → take_name param_id ≢ []
      → other ≢ take_name param_id
      → let k = record_param_value F m now param_id value param_type in
        let name = take_name param_id in
        (last_param_value F k name
          ≡ some (record {
            value = value;
            param_type = param_type;
            recv_ns = u64 now;
            recv_count = saturating_inc u64_max (prior_count F (last_param_value F m name));
          }))
        × ((last_param_value F k other ≡ last_param_value F m other)
            ⊎ (last_param_value F k other ≡ none))
        × (length k.params_by_name ≤ map_cap)
  unfolding record_param_value
  last_param_value-record m now param_id value param_type other o h n d =
      record_named-Recorded m now (take_name param_id) value param_type other o h n d

  -- After a HEARTBEAT the monitor holds its fields and is fresh within any allowance for times from
  -- then on, the time of the last mode change moves exactly if the mode differs, and the return value
  -- says that the mode differs or that this was the first.
  pub record_heartbeat_lem :
      (m : MavMonitor F) (now later allowance mode base status autopilot : ℕ)
      → later < 2 ^ 64
      → now ≤ later
      → later ≤ now + allowance
      → let (k, changed) = record_heartbeat F m now mode base status autopilot in
        (heartbeat_fresh F k later allowance ≡ true)
        × (k.current_custom_mode ≡ mode)
        × (k.current_autopilot ≡ autopilot)
        × ((k.mode_changed_at_ns ≡ now)
            ⊎ ((m.current_custom_mode ≡ mode) × (k.mode_changed_at_ns ≡ m.mode_changed_at_ns)))
        × ((changed ≡ false) ↔ ((m.current_custom_mode ≡ mode) × (m.heartbeat_ever ≡ true)))
  unfolding record_heartbeat heartbeat_fresh
  record_heartbeat_lem m now later allowance mode base status autopilot a b c = ground arith
