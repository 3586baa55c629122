-- ===== src/Fusion/Gps/Events.antt =====
-- src/fusion.rs: what the loop over the state machine's events makes the task do.
use flyingsquirrel.Base.{
  ◌≡◌, refl, ◌∙◌, inl, inr, Bool, false, not, ◌&&◌, ◌||◌, ltb, List, [], ◌∷◌, ◌++◌, Option, none,
  some, if◌then◌else◌, arith,
}
use mathlib.Core.Path.{subst, sym}
use flyingsquirrel.Base.Floats.{Floats}
use flyingsquirrel.Types.{GpsFix, NedPos, NavStateKind, normal, suspicious, spoofed, is_spoofed}
use flyingsquirrel.Detect.StateMachine.{
  StateMachine, Event, jump, drift, transition, evaluate, set_pos_detectors_enabled,
  force_back_to_suspicious, commit_susp_to_normal,
}
use flyingsquirrel.Detect.StateMachine.Transitions.{
  Edge, alarm, relent, latch, transitions, Moves, evaluate-Moves,
}
use flyingsquirrel.Detect.Residual.{Residual}
use flyingsquirrel.Nav.Reckoner.{Reckoner}
use flyingsquirrel.Fusion.Task.{
  Fusion, World, Effect, event, severs_gps, engages_rtb, verifies_sever, verifies_rtb, dumps,
  resets_controller,
}
use flyingsquirrel.Fusion.Verdict.{
  dump_effects, action_effects, on_clear, on_event, on_events, on_transition, veto_clear,
  accept_clear, decide, re_anchor_check, no_doppler_gate_streak,
}

module _ (F : Floats) (N : Reckoner F) where
  open F use {F32, F64}

  -- The effects that reach the controller, in order.
  abbrev pub actions : List (Effect F N) → List (Effect F N)
  actions [] = []
  actions (event _ ∷ es) = actions es
  actions (dumps ∷ es) = actions es
  actions (severs_gps ∷ es) = severs_gps ∷ actions es
  actions (engages_rtb ∷ es) = engages_rtb ∷ actions es
  actions (verifies_sever ∷ es) = verifies_sever ∷ actions es
  actions (verifies_rtb ∷ es) = verifies_rtb ∷ actions es
  actions (resets_controller ∷ es) = resets_controller ∷ actions es

  abbrev pub response : List (Effect F N)
  response = severs_gps ∷ engages_rtb ∷ verifies_sever ∷ verifies_rtb ∷ []

  -- The whole response on entering Spoofed, and nothing else.
  abbrev pub due : NavStateKind → NavStateKind → List (Effect F N)
  due before after = if not (is_spoofed before) && is_spoofed after then response else []

  pub due_same : (x : NavStateKind) → due x x ≡ []
  due_same normal = refl
  due_same suspicious = refl
  due_same spoofed = refl

  pub due_step :
      (xs : List (Effect F N)) {a b c d : NavStateKind}
      → a ≡ c
      → d ≡ b
      → xs ≡ due a b
      → xs ≡ due c d
  due_step xs {a} {b} {c} {d} p q x =
      subst (λ z. xs ≡ due c z) (sym q) (subst (λ z. xs ≡ due z b) p x)

  actions-append : (xs ys : List (Effect F N)) → actions (xs ++ ys) ≡ actions xs ++ actions ys
  actions-append [] ys = refl
  actions-append (event _ ∷ xs) ys = actions-append xs ys
  actions-append (dumps ∷ xs) ys = actions-append xs ys
  actions-append (severs_gps ∷ xs) ys = rw (actions-append xs ys) refl
  actions-append (engages_rtb ∷ xs) ys = rw (actions-append xs ys) refl
  actions-append (verifies_sever ∷ xs) ys = rw (actions-append xs ys) refl
  actions-append (verifies_rtb ∷ xs) ys = rw (actions-append xs ys) refl
  actions-append (resets_controller ∷ xs) ys = rw (actions-append xs ys) refl

  pub quiet_append : (xs ys : List (Effect F N)) → actions xs ≡ [] → actions (xs ++ ys) ≡ actions ys
  quiet_append xs ys e = actions-append xs ys ∙ rw e refl

  actions-action_effects :
      (s : Fusion F N) (w : World F N) (fix : GpsFix F) (r : Residual F)
      → actions (action_effects F N s w fix r) ≡ response
  unfolding action_effects dump_effects
  actions-action_effects s w fix r = ground arith

  -- A stage that neither moves the state machine nor acts.
  abbrev pub Quiet : Fusion F N → Fusion F N × List (Effect F N) → Type 0
  Quiet s (k, es) = (k.fsm.state ≡ s.fsm.state) × (actions es ≡ [])

  on_events-Quiet :
      (s : Fusion F N) (w : World F N) (fix : GpsFix F) (r : Residual F) (gps_ned : NedPos F)
      (since : Option F64) (es : List Event)
      → transitions es ≡ []
      → Quiet s (on_events F N s w fix r gps_ned since es)
  unfolding on_events on_event
  on_events-Quiet s w fix r gps_ned since [] e = (refl, refl)
  on_events-Quiet s w fix r gps_ned since (jump _ ∷ es) e =
      on_events-Quiet s w fix r gps_ned since es e
  on_events-Quiet s w fix r gps_ned since (drift _ ∷ es) e =
      on_events-Quiet s w fix r gps_ned since es e
  on_events-Quiet s w fix r gps_ned since (transition from to ∷ es) e = cc

  on_clear-Quiet :
      (s : Fusion F N) (fix : GpsFix F) (r : Residual F) (since check : Option F64)
      → s.fsm.state ≡ normal
      → let (k, es) = on_clear F N s fix r since check in
        (is_spoofed k.fsm.state ≡ false) × (actions es ≡ [])
  unfolding on_clear veto_clear accept_clear force_back_to_suspicious commit_susp_to_normal
  on_clear-Quiet s fix r since (some d) e = (ground arith, refl)
  on_clear-Quiet s fix r since none e = (ground arith, refl)

  -- The effects of one edge, when nothing but it is reported.
  Edge-due :
      (s : Fusion F N) (w : World F N) (fix : GpsFix F) (r : Residual F) (gps_ned : NedPos F)
      (since : Option F64) (from to : NavStateKind)
      → Edge from to
      → s.fsm.state ≡ to
      → let (k, es) = on_transition F N s w fix r gps_ned since from to in
        actions es ≡ due from k.fsm.state
  unfolding on_transition
  Edge-due s w fix r gps_ned since normal normal x e = elim x [ ]
  Edge-due s w fix r gps_ned since normal spoofed x e = elim x [ ]
  Edge-due s w fix r gps_ned since suspicious suspicious x e = elim x [ ]
  Edge-due s w fix r gps_ned since spoofed to x e = elim x [ ]
  Edge-due s w fix r gps_ned since normal suspicious alarm e = ground arith
  Edge-due s w fix r gps_ned since suspicious normal relent e =
      ground (arith, on_clear-Quiet s fix r since (re_anchor_check F N s gps_ned) e)
  Edge-due s w fix r gps_ned since suspicious spoofed latch e =
      let k : Fusion F N = record s { nav = N.set_state s.nav spoofed } in
      due_step _ {a = suspicious} {b = spoofed} refl e (actions-action_effects k w fix r)

  append_quiet : (xs ys : List (Effect F N)) → actions ys ≡ [] → actions (xs ++ ys) ≡ actions xs
  append_quiet [] ys e = e
  append_quiet (event _ ∷ xs) ys e = append_quiet xs ys e
  append_quiet (dumps ∷ xs) ys e = append_quiet xs ys e
  append_quiet (severs_gps ∷ xs) ys e = rw (append_quiet xs ys e) refl
  append_quiet (engages_rtb ∷ xs) ys e = rw (append_quiet xs ys e) refl
  append_quiet (verifies_sever ∷ xs) ys e = rw (append_quiet xs ys e) refl
  append_quiet (verifies_rtb ∷ xs) ys e = rw (append_quiet xs ys e) refl
  append_quiet (resets_controller ∷ xs) ys e = rw (append_quiet xs ys e) refl

  on_events-Edge :
      (s : Fusion F N) (w : World F N) (fix : GpsFix F) (r : Residual F) (gps_ned : NedPos F)
      (since : Option F64) (before to : NavStateKind) (es : List Event)
      → Edge before to
      → s.fsm.state ≡ to
      → transitions es ≡ (before, to) ∷ []
      → let (k, out) = on_events F N s w fix r gps_ned since es in
        actions out ≡ due before k.fsm.state
  unfolding on_events on_event
  on_events-Edge s w fix r gps_ned since before to [] edge e one = cc
  on_events-Edge s w fix r gps_ned since before to (jump _ ∷ es) edge e one =
      on_events-Edge s w fix r gps_ned since before to es edge e one
  on_events-Edge s w fix r gps_ned since before to (drift _ ∷ es) edge e one =
      on_events-Edge s w fix r gps_ned since before to es edge e one
  on_events-Edge s w fix r gps_ned since before to (transition from upto ∷ es) edge e one =
      let p : from ≡ before = cc in
      let q : upto ≡ to = cc in
      let rest : transitions es ≡ [] = cc in
      let step = on_transition F N s w fix r gps_ned since from upto in
      let quiet = on_events-Quiet step.0 w fix r gps_ned since es rest in
      append_quiet step.1 _ quiet.1
      ∙ rw (quiet.0, p, q) (Edge-due s w fix r gps_ned since before to edge e)

  on_events-due :
      (s : Fusion F N) (w : World F N) (fix : GpsFix F) (r : Residual F) (gps_ned : NedPos F)
      (since : Option F64) (before : NavStateKind) (es : List Event)
      → Moves before s.fsm.state es
      → let (k, out) = on_events F N s w fix r gps_ned since es in
        actions out ≡ due before k.fsm.state
  on_events-due s w fix r gps_ned since before es (inl (same, none_of)) =
      let quiet = on_events-Quiet s w fix r gps_ned since es none_of in
      quiet.1 ∙ rw (quiet.0, same, due_same before) refl
  on_events-due s w fix r gps_ned since before es (inr (edge, one)) =
      on_events-Edge s w fix r gps_ned since before s.fsm.state es edge refl one

  pub enabled-state :
      (m : StateMachine F) (on : Bool) → (set_pos_detectors_enabled F m on).state ≡ m.state
  unfolding set_pos_detectors_enabled
  enabled-state m on = ground arith

  pub decide-due :
      (s : Fusion F N) (w : World F N) (fix : GpsFix F) (r : Residual F) (gps_ned : NedPos F)
      → let (k, out) = decide F N s w fix r gps_ned in actions out ≡ due s.fsm.state k.fsm.state
  unfolding decide
  decide-due s w fix r gps_ned =
      let on = r.dvel_known || ltb s.no_doppler_streak no_doppler_gate_streak in
      let m = set_pos_detectors_enabled F s.fsm on in
      let out = evaluate F m r (F.secs fix.mono_ns) fix.hdop fix.sats in
      let moves = evaluate-Moves F m r (F.secs fix.mono_ns) fix.hdop fix.sats in
      on_events-due (record s { fsm = out.0 }) w fix r gps_ned s.fsm.suspicious_since s.fsm.state
        out.1 (subst (λ x. Moves x out.0.state out.1) (enabled-state s.fsm on) moves)
