-- ===== src/Mav/Controller/Dwell.antt =====
-- src/mav/controller.rs: the dwell of `verify_rtb_engaged`, as a run of polls.
use flyingsquirrel.Base.{
  ap, ◌⊎◌, ℕ, ◌+◌, ◌≤◌, ◌<◌, ◌≡◌, refl, true, false, ◌&&◌, List, [], ◌∷◌, ◌++◌, Option, none, some,
  ltb, leb, inl, inr, Bool-cases, if◌then◌else◌, arith,
}
use flyingsquirrel.Base.Floats.{Floats}
use flyingsquirrel.Base.Lists.{All}
use flyingsquirrel.Mav.Modes.{VehicleProfile, is_rtl_mode}
use flyingsquirrel.Mav.Monitor.{MavMonitor, last_ack_for_cmd, is_armed}
use flyingsquirrel.Mav.Controller.{
  Poll, rtb_loop, next_rtl, ack_ok, ack_gate, causal_mode, expected_ack_cmd, mav_result_accepted,
  rtb_verify_dwell_polls,
}

module _ (F : Floats) where
  -- How often the polled time of the last HEARTBEAT moves forward, from the one at the call.
  abbrev pub advances : ℕ → List (Poll F) → ℕ
  advances hb [] = 0
  advances hb (p ∷ ps) =
      let rest = advances p.monitor.last_heartbeat_ns ps in
      if ltb hb p.monitor.last_heartbeat_ns then rest + 1 else rest

  -- The state in which the RTL gates are met: an ACK of the command that was sent, accepted and behind
  -- the send, and an armed autopilot in a returning mode that it entered behind the send.
  pub record Gates (profile : VehicleProfile) (sent_at : ℕ) (m : MavMonitor F) : Type 0 where
    pub ack :
        (ns : ℕ) × (last_ack_for_cmd F m (expected_ack_cmd profile)
          ≡ some (mav_result_accepted, ns))
        × (sent_at < ns)
    pub causal : sent_at < m.mode_changed_at_ns
    pub returning : is_rtl_mode profile m.current_custom_mode ≡ true
    pub armed : is_armed F m ≡ true

  ack_gate_sound :
      (o : Option (ℕ × ℕ)) (sent_at : ℕ)
      → ack_gate F o sent_at ≡ true
      → (ns : ℕ) × (o ≡ some (mav_result_accepted, ns)) × (sent_at < ns)
  ack_gate_sound none sent_at h = cc
  ack_gate_sound (some (result, ns)) sent_at h = (ns, ground arith, ground arith)

  Gates-of :
      (profile : VehicleProfile) (sent_at : ℕ) (m : MavMonitor F)
      → ack_ok F profile sent_at m ≡ true
      → causal_mode F profile sent_at m ≡ true
      → Gates profile sent_at m
  unfolding ack_ok causal_mode
  Gates-of profile sent_at m a c = record {
    ack = ack_gate_sound (last_ack_for_cmd F m (expected_ack_cmd profile)) sent_at a;
    causal = ground arith;
    returning = ground arith;
    armed = ground arith;
  }

  -- The polls begin with an unbroken run in a returning mode, whose last poll meets the gates. With
  -- `so_far` HEARTBEATs before it, the latest of them at `hb`, the new ones in the run make up three.
  pub record Held (profile : VehicleProfile) (sent_at so_far hb : ℕ) (ps : List (Poll F))
      : Type 0 where
    pub run : List (Poll F)
    pub last : Poll F
    pub after : List (Poll F)
    pub split : ps ≡ run ++ last ∷ after
    pub returning : All (λ p. is_rtl_mode profile p.monitor.current_custom_mode ≡ true) run
    pub fresh : rtb_verify_dwell_polls ≤ so_far + advances hb (run ++ last ∷ [])
    pub gates : Gates profile sent_at last.monitor

  -- Such a run begins at some poll.
  pub data Dwelt (profile : VehicleProfile) (sent_at : ℕ) : ℕ → List (Poll F) → Type 0 where
    now : {hb : ℕ} {ps : List (Poll F)} → Held profile sent_at 0 hb ps → Dwelt profile sent_at hb ps
    later :
        {hb : ℕ} {p : Poll F} {ps : List (Poll F)}
        → Dwelt profile sent_at p.monitor.last_heartbeat_ns ps
        → Dwelt profile sent_at hb (p ∷ ps)

  next_rtl_le :
      (profile : VehicleProfile) (n hb : ℕ) (m : MavMonitor F)
      → n ≤ 255
      → next_rtl F profile n hb m ≤ (if ltb hb m.last_heartbeat_ns then n + 1 else n)
  unfolding next_rtl
  next_rtl_le profile n hb m h = ground arith

  next_rtl_fits :
      (profile : VehicleProfile) (n hb : ℕ) (m : MavMonitor F)
      → n ≤ 255
      → next_rtl F profile n hb m ≤ 255
  unfolding next_rtl
  next_rtl_fits profile n hb m h = ground arith

  next_rtl_reset :
      (profile : VehicleProfile) (n hb : ℕ) (m : MavMonitor F)
      → is_rtl_mode profile m.current_custom_mode ≡ false
      → next_rtl F profile n hb m ≡ 0
  unfolding next_rtl
  next_rtl_reset profile n hb m h = ground arith

  -- A run that continues one poll further in front, or that a poll in another mode begins anew.
  Held-step :
      (profile : VehicleProfile) (sent_at n hb : ℕ) (p : Poll F) (ps : List (Poll F))
      → n ≤ 255
      → Held profile sent_at (next_rtl F profile n hb p.monitor) p.monitor.last_heartbeat_ns ps
      → Held profile sent_at n hb (p ∷ ps) ⊎ Dwelt profile sent_at hb (p ∷ ps)
  Held-step profile sent_at n hb p ps fits h =
      let m = p.monitor in
      elim (Bool-cases (is_rtl_mode profile m.current_custom_mode)) [
        | inl rtl ↦ inl (record {
          run = p ∷ h.run;
          last = h.last;
          after = h.after;
          split = ap (λ x. p ∷ x) h.split;
          returning = (rtl, h.returning);
          fresh = ground (arith, next_rtl_le profile n hb m fits, h.fresh);
          gates = h.gates;
        })
        | inr other ↦ inr (
            later (
              now (record {
                run = h.run;
                last = h.last;
                after = h.after;
                split = h.split;
                returning = h.returning;
                fresh = ground (arith, next_rtl_reset profile n hb m other, h.fresh);
                gates = h.gates;
              })))
      ]

  pub rtb_loop_sound :
      (profile : VehicleProfile) (sent_at n hb : ℕ) (ps : List (Poll F))
      → n ≤ 255
      → rtb_loop F profile sent_at n hb ps ≡ some true
      → Held profile sent_at n hb ps ⊎ Dwelt profile sent_at hb ps
  unfolding rtb_loop
  rtb_loop_sound profile sent_at n hb [] fits e = cc
  rtb_loop_sound profile sent_at n hb (p ∷ ps) fits e =
      let m = p.monitor in
      let count = next_rtl F profile n hb m in
      elim (Bool-cases (
        ack_ok F profile sent_at m
        && causal_mode F profile sent_at m
        && leb rtb_verify_dwell_polls count)) [
          | inl met ↦ inl (record {
            run = [];
            last = p;
            after = ps;
            split = refl;
            returning = tt;
            fresh = ground (arith, next_rtl_le profile n hb m fits);
            gates = Gates-of profile sent_at m (ground arith) (ground arith);
          })
          | inr miss ↦
              let rest =
                rtb_loop_sound profile sent_at count m.last_heartbeat_ns ps
                  (next_rtl_fits profile n hb m fits) (ground arith) in
              elim rest [
                | inl h ↦ Held-step profile sent_at n hb p ps fits h
                | inr d ↦ inr (later d)
              ]
        ]
