-- ===== src/Mav/Controller/Confirm.antt =====
-- src/mav/controller.rs: what it takes to confirm an action.
use flyingsquirrel.Base.{
  ℕ, ◌+◌, ◌≤◌, ◌<◌, ◌≡◌, ◌≢◌, refl, Bool, true, false, ◌&&◌, ◌==◌, List, [], ◌∷◌, ◌++◌, Option,
  none, some, leb, inl, inr, Bool-cases, arith,
}
use flyingsquirrel.Base.Floats.{Floats}
use flyingsquirrel.Mav.Modes.{VehicleProfile}
use flyingsquirrel.Mav.Monitor.{MavMonitor, ParamEcho, last_param_value, prior_count}
use flyingsquirrel.Mav.Controller.{
  Controller, MavParamType, Poll, rtb_loop, next_rtl, ack_ok, causal_mode, verify_rtb_engaged,
  rtb_verify_dwell_polls, sever_gps_param, sever_verify_dwell_echoes, sever_gps, sever_loop,
  sever_echo_confirms, confirms, verify_sever_engaged,
}
use flyingsquirrel.Mav.Controller.Dwell.{Dwelt, now, rtb_loop_sound}

module _ (F : Floats) where
  open F use {F32, f32}

  rtb_loop_total :
      (profile : VehicleProfile) (sent_at n hb : ℕ) (before : List (Poll F)) (last : Poll F)
      → last.expired ≡ true
      → (answer : Bool) × (rtb_loop F profile sent_at n hb (before ++ last ∷ []) ≡ some answer)
  unfolding rtb_loop
  rtb_loop_total profile sent_at n hb [] last x =
      let m = last.monitor in
      let met =
        ack_ok F profile sent_at m
        && causal_mode F profile sent_at m
        && leb rtb_verify_dwell_polls (next_rtl F profile n hb m) in
      elim (Bool-cases met) [ inl y ↦ (true, rw y) | inr y ↦ (false, rw (y, x)) ]
  rtb_loop_total profile sent_at n hb (p ∷ ps) last x =
      let m = p.monitor in
      let count = next_rtl F profile n hb m in
      let (b, e) = rtb_loop_total profile sent_at count m.last_heartbeat_ns ps last x in
      let met =
        ack_ok F profile sent_at m
        && causal_mode F profile sent_at m
        && leb rtb_verify_dwell_polls count in
      elim (Bool-cases met) [
        | inl y ↦ (true, rw y)
        | inr y ↦ elim (Bool-cases p.expired) [
          | inl z ↦ (false, rw (y, z))
          | inr z ↦ (b, rw (y, z) e)
        ]
      ]

  -- `verify_rtb_engaged` confirms only if a command was sent and there is an unbroken run of polls, all in
  -- a returning mode, in which the time of the last HEARTBEAT moved forward at least three times, and
  -- whose last poll meets all the gates: an accepted ACK of the command behind the send, a mode entered
  -- behind the send, and an armed autopilot. A poll in any other mode begins the count again.
  pub verify_rtb_engaged_sound :
      (c : Controller F) (entry : MavMonitor F) (ps : List (Poll F))
      → verify_rtb_engaged F c entry ps ≡ some true
      → (c.rtb_sent_at_ns ≢ 0) × Dwelt F c.profile c.rtb_sent_at_ns entry.last_heartbeat_ns ps
  unfolding verify_rtb_engaged
  verify_rtb_engaged_sound c entry ps e = elim (Bool-cases (c.rtb_sent_at_ns == 0)) [
    | inl never ↦ ground arith
    | inr sent ↦
        let found =
          rtb_loop_sound F c.profile c.rtb_sent_at_ns 0 entry.last_heartbeat_ns ps (omega arith)
            (ground arith) in
        (ground arith, elim found [ inl h ↦ now h | inr d ↦ d ])
  ]

  -- The read-back of an RTL always ends: once a poll is past the deadline, it has answered.
  pub verify_rtb_engaged_total :
      (c : Controller F) (entry : MavMonitor F) (before : List (Poll F)) (last : Poll F)
      → last.expired ≡ true
      → (answer : Bool) × (verify_rtb_engaged F c entry (before ++ last ∷ []) ≡ some answer)
  unfolding verify_rtb_engaged
  verify_rtb_engaged_total c entry before last x = elim (Bool-cases (c.rtb_sent_at_ns == 0)) [
    | inl never ↦ (false, rw never)
    | inr sent ↦
        let (b, e) =
          rtb_loop_total c.profile c.rtb_sent_at_ns 0 entry.last_heartbeat_ns before last x in
        (b, rw sent e)
  ]

  -- An echo that meets the three gates of the sever: received behind the send, of the type that was set,
  -- near zero, and at least the second of its name since the send.
  pub record SeverGates (c : Controller F) (ty : ℕ) (e : ParamEcho F) : Type 0 where
    pub causal : c.sever_sent_at_ns < e.recv_ns
    pub typed : e.param_type ≡ ty
    pub zero_value : f32.lt (f32.abs e.value) (f32.lit 5 1) ≡ true
    pub dwell : c.sever_echo_baseline + sever_verify_dwell_echoes ≤ e.recv_count

  confirms_iff :
      (c : Controller F) (ty : ℕ) (o : Option (ParamEcho F))
      → confirms F o c.sever_sent_at_ns c.sever_echo_baseline ty ≡ true
      → (e : ParamEcho F) × (o ≡ some e) × SeverGates c ty e
  unfolding sever_echo_confirms
  confirms_iff c ty none h = cc
  confirms_iff c ty (some e) h = (e, refl, ground arith)

  pub data Echoed (wire : MavParamType → ℕ) (c : Controller F) : List (Poll F) → Type 0 where
    seen :
        {p : Poll F} {ps : List (Poll F)} (e : ParamEcho F)
        → last_param_value F p.monitor (sever_gps_param c.profile).0 ≡ some e
        → SeverGates c (wire (sever_gps_param c.profile).1) e
        → Echoed wire c (p ∷ ps)
    behind : {p : Poll F} {ps : List (Poll F)} → Echoed wire c ps → Echoed wire c (p ∷ ps)

  sever_loop_sound :
      (wire : MavParamType → ℕ) (c : Controller F) (ps : List (Poll F))
      → sever_loop F wire c ps ≡ some true
      → Echoed wire c ps
  unfolding sever_loop
  sever_loop_sound wire c [] e = cc
  sever_loop_sound wire c (p ∷ ps) e =
      let echo = last_param_value F p.monitor (sever_gps_param c.profile).0 in
      let ty = wire (sever_gps_param c.profile).1 in
      elim (Bool-cases (confirms F echo c.sever_sent_at_ns c.sever_echo_baseline ty)) [
        | inl met ↦ let (x, at, gates) = confirms_iff c ty echo met in seen x at gates
        | inr miss ↦ behind (sever_loop_sound wire c ps (ground arith))
      ]

  -- `sever_gps` followed by its read-back confirms only by an echo of the profile's own parameter that was
  -- received behind the send, has the type that was set, is near zero, and stands at a receipt count of
  -- that name that is two or more over the count at the send. The count is of all echoes of the name,
  -- whatever their values and types.
  pub verify_sever_engaged_sound :
      (wire : MavParamType → ℕ) (c : Controller F) (m : MavMonitor F) (at : ℕ)
      (attempts : List Bool) (ps : List (Poll F))
      → let k = (sever_gps F c m at attempts).0 in
        verify_sever_engaged F wire k ps ≡ some true
        → (at ≢ 0)
          × (k.sever_echo_baseline
              ≡ prior_count F (last_param_value F m (sever_gps_param k.profile).0))
          × Echoed wire k ps
  unfolding verify_sever_engaged sever_gps
  verify_sever_engaged_sound wire c m at attempts ps e =
      (ground arith, refl, sever_loop_sound wire (sever_gps F c m at attempts).0 ps (ground arith))
