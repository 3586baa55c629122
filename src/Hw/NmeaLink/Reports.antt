-- ===== src/Hw/NmeaLink/Reports.antt =====
-- src/hw/nmea_link.rs: what `LinkHealth` reports over the life of a link.
use flyingsquirrel.Base.{
  ℕ, ◌+◌, ◌-◌, ◌≤◌, ◌≡◌, ◌≢◌, refl, ◌∙◌, inl, inr, List, [], ◌∷◌, ◌++◌, Option, none, some, arith,
  ltb, if◌then◌else◌, Bool-cases, unwrap_or,
}
use flyingsquirrel.Hw.NmeaCodec.{NmeaLine}
use flyingsquirrel.Hw.NmeaLink.{
  LinkHealth, LinkState, LinkReport, LinkDiagnosis, LinkCounts, repeat_interval, grace, new,
  observe_bytes, on_event, on_parse_error, on_fix, on_fix_rejected, classify, recover, speak,
  complain, poll_as, poll,
}

-- What happens on a link, with its instants.
pub data Input : Type 0 where
  bytes : ℕ → ℕ → Input
  event : NmeaLine → ℕ → Input
  parse_error : Input
  fix : ℕ → Input
  fix_rejected : Input
  polled : ℕ → Input

abbrev stamped : ℕ → Option LinkReport → List (ℕ × LinkReport)
stamped now none = []
stamped now (some r) = (now, r) ∷ []

unfoldable pub input : LinkHealth → Input → LinkHealth × List (ℕ × LinkReport)
input h (Input.bytes total now) = (observe_bytes h total now, [])
input h (Input.event evt now) = (on_event h evt now, [])
input h Input.parse_error = (on_parse_error h, [])
input h (Input.fix now) = (on_fix h now, [])
input h Input.fix_rejected = (on_fix_rejected h, [])
input h (Input.polled now) = let r = poll h now in (r.0, stamped now r.1)

unfoldable pub input_all : LinkHealth → List Input → LinkHealth × List (ℕ × LinkReport)
input_all h [] = (h, [])
input_all h (i ∷ is) = let r = input h i in let rest = input_all r.0 is in (rest.0, r.1 ++ rest.1)

-- An episode of trouble: the time and the state of its last report.
abbrev pub Episode : Type 0
Episode = Option (ℕ × LinkState)

-- The reports allowed: trouble when no episode is open, or a minute after its last report, and a recovery
-- only of an open episode, from the state last reported, which closes it.
pub data Paced : Episode → List (ℕ × LinkReport) → Episode → Type 0 where
  quiet : (e : Episode) → Paced e [] e
  opened :
      (now : ℕ) (d : LinkDiagnosis) (rs : List (ℕ × LinkReport)) (e : Episode)
      → Paced (some (now, d.state)) rs e
      → Paced none ((now, LinkReport.trouble d) ∷ rs) e
  repeated :
      (last now : ℕ) (s : LinkState) (d : LinkDiagnosis) (rs : List (ℕ × LinkReport)) (e : Episode)
      → last + repeat_interval ≤ now
      → Paced (some (now, d.state)) rs e
      → Paced (some (last, s)) ((now, LinkReport.trouble d) ∷ rs) e
  closed :
      (last now : ℕ) (s : LinkState) (c : LinkCounts) (rs : List (ℕ × LinkReport)) (e : Episode)
      → Paced none rs e
      → Paced (some (last, s)) ((now, LinkReport.recovered s c) ∷ rs) e

abbrev pub Tracks : LinkHealth → Episode → Type 0
Tracks h none = (h.last_report_at ≡ none) × (h.reported ≡ none)
Tracks h (some (last, s)) = (h.last_report_at ≡ some last) × (h.reported ≡ some s)

-- One poll, of an episode e: the episode behind it, and that its reports may stand before any that are
-- allowed from there.
abbrev Poll : Episode → ℕ → LinkHealth × Option LinkReport → Type 0
Poll e now (h, o) =
    (e' : Episode) × Tracks h e'
    × ((rs : List (ℕ × LinkReport)) (last : Episode)
        → Paced e' rs last
        → Paced e (stamped now o ++ rs) last)

recover-Poll :
    (h : LinkHealth) (e : Episode) (now : ℕ) → Tracks h e → Poll e now (recover h h.reported)
unfolding recover
recover-Poll h none now (at, was) = rw was (none, (at, refl), λ rs last p. p)
recover-Poll h (some (t, s)) now (at, was) =
    rw was (none, (refl, refl), λ rs last p. Paced.closed t now s h.counts rs last p)

speak-Poll :
    (h : LinkHealth) (e : Episode) (now : ℕ) (state : LinkState)
    → Tracks h e
    → Poll e now (speak h now state)
unfolding speak
speak-Poll h none now state (at, was) =
    rw (at, if◌then◌else◌)
      (some (now, state), (refl, refl), λ rs last p. Paced.opened now _ rs last p)
speak-Poll h (some (t, s)) now state (at, was) = elim (Bool-cases (ltb (now - t) repeat_interval)) [
  | inl c ↦ rw (at, c, if◌then◌else◌) (some (t, s), (refl, was), λ rs last p. p)
  | inr c ↦
      rw (at, c, if◌then◌else◌)
        (
          some (now, state),
          (refl, refl),
          λ rs last p. Paced.repeated t now s _ rs last (ground (arith, c)) p,
        )
]

complain-Poll :
    (h : LinkHealth) (e : Episode) (now : ℕ) (state : LinkState)
    → Tracks h e
    → Poll e now (complain h now state)
unfolding complain
complain-Poll h e now state tr =
    elim (Bool-cases (ltb (now - unwrap_or h.last_fix_at 0) (grace state))) [
      | inl c ↦ rw (c, if◌then◌else◌) (e, tr, λ rs last p. p)
      | inr c ↦ rw (c, if◌then◌else◌) (speak-Poll h e now state tr)
    ]

poll_as-Poll :
    (h : LinkHealth) (e : Episode) (now : ℕ) (state : LinkState)
    → Tracks h e
    → Poll e now (poll_as h now state)
unfolding poll_as
poll_as-Poll h e now LinkState.healthy tr = recover-Poll h e now tr
poll_as-Poll h e now LinkState.no_bytes tr = complain-Poll h e now LinkState.no_bytes tr
poll_as-Poll h e now LinkState.no_sentences tr = complain-Poll h e now LinkState.no_sentences tr
poll_as-Poll h e now LinkState.no_fix tr = complain-Poll h e now LinkState.no_fix tr
poll_as-Poll h e now LinkState.fixes_rejected tr = complain-Poll h e now LinkState.fixes_rejected tr

abbrev Heard : Episode → LinkHealth × List (ℕ × LinkReport) → Type 0
Heard e (h, rs) =
    (e' : Episode) × Tracks h e'
    × ((more : List (ℕ × LinkReport)) (last : Episode)
        → Paced e' more last
        → Paced e (rs ++ more) last)

unpolled :
    (h h' : LinkHealth) (e : Episode)
    → h'.last_report_at ≡ h.last_report_at
    → h'.reported ≡ h.reported
    → Tracks h e
    → Heard e (h', [])
unpolled h h' none at was (a, w) = (none, (at ∙ a, was ∙ w), λ rs last p. p)
unpolled h h' (some (t, s)) at was (a, w) = (some (t, s), (at ∙ a, was ∙ w), λ rs last p. p)

input-Heard : (h : LinkHealth) (e : Episode) (i : Input) → Tracks h e → Heard e (input h i)
unfolding input observe_bytes on_event on_parse_error on_fix on_fix_rejected poll
input-Heard h e (Input.bytes total now) tr =
    unpolled h (observe_bytes h total now) e (ground arith) (ground arith) tr
input-Heard h e (Input.event evt now) tr =
    unpolled h (on_event h evt now) e (ground arith) (ground arith) tr
input-Heard h e Input.parse_error tr = unpolled h (on_parse_error h) e refl refl tr
input-Heard h e (Input.fix now) tr = unpolled h (on_fix h now) e refl refl tr
input-Heard h e Input.fix_rejected tr = unpolled h (on_fix_rejected h) e refl refl tr
input-Heard h e (Input.polled now) tr = poll_as-Poll h e now (classify h now) tr

input_all-Paced :
    (h : LinkHealth) (e : Episode) (is : List Input)
    → Tracks h e
    → (last : Episode) × Tracks (input_all h is).0 last × Paced e (input_all h is).1 last
unfolding input_all
input_all-Paced h e [] tr = (e, tr, Paced.quiet e)
input_all-Paced h e (i ∷ is) tr =
    let (e', tr', add) = input-Heard h e i tr in
    let (last, at, paced) = input_all-Paced (input h i).0 e' is tr' in (last, at, add _ last paced)

-- The reports of a link from its opening on, whatever arrives on it and whenever it is polled, follow the
-- rule of `Paced`: a trouble that persists is repeated after a minute at the soonest, a recovery follows
-- only a reported trouble, names the state last reported, and comes once for each episode.
pub reports-Paced :
    (is : List Input)
    → (last : Episode) × Tracks (input_all new is).0 last × Paced none (input_all new is).1 last
reports-Paced is = input_all-Paced new none is (refl, refl)

Loud : LinkHealth → ℕ → Type 0
Loud h now =
    (unwrap_or h.last_fix_at 0 + 60000000000 ≤ now)
    × (unwrap_or h.last_report_at 0 + 60000000000 ≤ now)

abbrev diagnosis : LinkHealth → ℕ → LinkState → LinkDiagnosis
diagnosis h now state = record {
  state = state;
  counts = h.counts;
  silent_for = now - unwrap_or h.last_fix_at 0;
}

complain-Loud :
    (h : LinkHealth) (now : ℕ) (state : LinkState)
    → Loud h now
    → (complain h now state).1 ≡ some (LinkReport.trouble (diagnosis h now state))
unfolding complain speak grace Loud
complain-Loud h now state loud = ground (arith, loud)

poll_as-Loud :
    (h : LinkHealth) (now : ℕ) (state : LinkState)
    → Loud h now
    → state ≢ LinkState.healthy
    → (poll_as h now state).1 ≡ some (LinkReport.trouble (diagnosis h now state))
unfolding poll_as
poll_as-Loud h now LinkState.healthy loud ne = absurd (ne refl)
poll_as-Loud h now LinkState.no_bytes loud ne = complain-Loud h now _ loud
poll_as-Loud h now LinkState.no_sentences loud ne = complain-Loud h now _ loud
poll_as-Loud h now LinkState.no_fix loud ne = complain-Loud h now _ loud
poll_as-Loud h now LinkState.fixes_rejected loud ne = complain-Loud h now _ loud

unhealthy : (h : LinkHealth) (now : ℕ) → Loud h now → classify h now ≢ LinkState.healthy
unfolding classify Loud
unhealthy h now loud e = ground (arith, loud)

-- While no fix has been accepted for a minute, or ever in the minute or more since the port opened, and
-- no report was made within the last minute, a poll reports the trouble that it sees.
pub poll-silent :
    (h : LinkHealth) (now : ℕ)
    → unwrap_or h.last_fix_at 0 + 60000000000 ≤ now
    → unwrap_or h.last_report_at 0 + 60000000000 ≤ now
    → (d : LinkDiagnosis) × ((poll h now).1 ≡ some (LinkReport.trouble d))
      × (d.state ≡ classify h now)
      × (d.state ≢ LinkState.healthy)
unfolding poll Loud
poll-silent h now since_fix since_report =
    let loud : Loud h now = (since_fix, since_report) in
    let sick = unhealthy h now loud in
    (diagnosis h now (classify h now), poll_as-Loud h now (classify h now) loud sick, refl, sick)
