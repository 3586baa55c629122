-- ===== src/Mav/Watchdog/Links.antt =====
-- src/mav/mod.rs: the order of the link events of `spawn_heartbeat_watchdog`.
use flyingsquirrel.Base.{
  ℕ, ◌≡◌, refl, ◌∙◌, ap, ◌⊎◌, inl, inr, Bool, true, false, List, [], ◌∷◌, ◌++◌, Option, none, some,
  arith, Bool-cases,
}
use flyingsquirrel.Base.Floats.{Floats}
use flyingsquirrel.Types.{SpoofKind, SpoofingEvent}
use flyingsquirrel.Mav.Monitor.{MavMonitor, heartbeat_fresh}
use flyingsquirrel.Mav.Watchdog.{
  Watchdog, waiting, link_event, mode_change_event, await_heartbeat, watch, tick,
}

-- What an event says of the link: it went up or down, which it must not have been.
abbrev pub link_after : Bool → SpoofKind → Option Bool
link_after false SpoofKind.link_restored = some true
link_after true SpoofKind.link_restored = none
link_after true SpoofKind.link_down = some false
link_after false SpoofKind.link_down = none
link_after up _ = some up

module _ (F : Floats) where
  -- The link's state after the events, if its events alternate.
  unfoldable pub link_replay : Option Bool → List (SpoofingEvent F) → Option Bool
  link_replay none evs = none
  link_replay (some up) [] = some up
  link_replay (some up) (ev ∷ evs) = link_replay (link_after up ev.kind) evs

  link_replay-append :
      (o : Option Bool) (xs ys : List (SpoofingEvent F))
      → link_replay o (xs ++ ys) ≡ link_replay (link_replay o xs) ys
  unfolding link_replay
  link_replay-append none xs ys = refl
  link_replay-append (some up) [] ys = refl
  link_replay-append (some up) (ev ∷ xs) ys = link_replay-append (link_after up ev.kind) xs ys

  abbrev Settled : Watchdog → Type 0
  Settled w = (w.have_seen_heartbeat ≡ true) ⊎ (w.last_state_up ≡ false)

  module _ (staleness_ns : ℕ) where
    -- The ticks of the watchdog: each with its instant and the two monitors it reads.
    unfoldable pub tick_all :
        Watchdog → List (ℕ × MavMonitor F × MavMonitor F) → Watchdog × List (SpoofingEvent F)
    tick_all w [] = (w, [])
    tick_all w ((now, m, later) ∷ ts) =
        let r = tick F staleness_ns w now m later in
        let rest = tick_all r.0 ts in (rest.0, r.1 ++ rest.1)

    tick_lem :
        (w : Watchdog) (now : ℕ) (m later : MavMonitor F)
        → Settled w
        → let r = tick F staleness_ns w now m later in
          (link_replay (some w.last_state_up) r.1 ≡ some r.0.last_state_up)
          × (r.0.last_state_up ≡ heartbeat_fresh F m now staleness_ns)
          × Settled r.0
    unfolding tick watch await_heartbeat link_event mode_change_event link_replay
    tick_lem w now m later h = elim (Bool-cases (heartbeat_fresh F m now staleness_ns)) [
      | inl c ↦ rw c (ground (arith, h))
      | inr c ↦ rw c (ground (arith, h))
    ]

    tick_all_lem :
        (w : Watchdog) (ts : List (ℕ × MavMonitor F × MavMonitor F))
        → Settled w
        → let r = tick_all w ts in
          (link_replay (some w.last_state_up) r.1 ≡ some r.0.last_state_up) × Settled r.0
    unfolding tick_all link_replay
    tick_all_lem w [] h = (refl, h)
    tick_all_lem w ((now, m, later) ∷ ts) h =
        let r = tick F staleness_ns w now m later in
        let rest = tick_all r.0 ts in
        let (told, fresh, settled) = tick_lem w now m later h in
        let ih = tick_all_lem r.0 ts settled in
        (link_replay-append (some w.last_state_up) r.1 rest.1 ∙ rw told ih.0, ih.1)

    -- Over any ticks from the start, link events alternate, a restored link first, and right behind a
    -- tick they tell the truth: replaying them all gives exactly whether that tick found the heartbeat
    -- fresh (a link never reported is one that is not up).
    pub ticks_tell :
        (ts : List (ℕ × MavMonitor F × MavMonitor F)) (now : ℕ) (m later : MavMonitor F)
        → let before = tick_all waiting ts in
          link_replay (some false) (before.1 ++ (tick F staleness_ns before.0 now m later).1)
          ≡ some (heartbeat_fresh F m now staleness_ns)
    ticks_tell ts now m later =
        let before = tick_all waiting ts in
        let last = tick F staleness_ns before.0 now m later in
        let (told, settled) = tick_all_lem waiting ts (inr refl) in
        let (told_last, fresh, _) = tick_lem before.0 now m later settled in
        link_replay-append (some false) before.1 last.1
        ∙ (ap (λ o. link_replay o last.1) told ∙ (told_last ∙ ap some fresh))
