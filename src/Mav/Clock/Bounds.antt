-- ===== src/Mav/Clock/Bounds.antt =====
-- src/mav/mod.rs: how far `ClockAligner` moves a stamp, and which spacing it keeps.
use flyingsquirrel.Base.{ℕ, ◌+◌, ◌*◌, ◌≤◌, ◌≡◌, ◌⊎◌, List, [], ◌∷◌, Option, none, some, arith}
use flyingsquirrel.Base.Lists.{All}
use flyingsquirrel.Mav.Clock.{ClockAligner, align, clock_align_max_skew}

-- The anchor was set at an arrival no later than `now`.
abbrev pub IsPast : Option (ℕ × ℕ) → ℕ → Type 0
IsPast none now = Unit
IsPast (some (anchor_arrival, anchor_sensor)) now = anchor_arrival ≤ now

-- The stamps of a stream of messages: each with the sensor stamp it carries and its arrival.
unfoldable pub align_all : ClockAligner → List (Option ℕ × ℕ) → List (ℕ × ℕ)
align_all c [] = []
align_all c ((s, arrival) ∷ ms) = let r = align c s arrival in (arrival, r.1) ∷ align_all r.0 ms

-- The arrivals never go back, from `now` on.
unfoldable pub IsMonotone : ℕ → List (Option ℕ × ℕ) → Type 0
IsMonotone now [] = Unit
IsMonotone now ((s, arrival) ∷ ms) = (now ≤ arrival) × IsMonotone arrival ms

abbrev pub Near : ℕ × ℕ → Type 0
Near (arrival, stamp) =
    (stamp ≤ arrival + clock_align_max_skew) × (arrival ≤ stamp + clock_align_max_skew)

pub align-Near :
    (c : ClockAligner) (s : Option ℕ) (arrival : ℕ)
    → IsPast c.anchor arrival
    → Near (arrival, (align c s arrival).1) × IsPast (align c s arrival).0.anchor arrival
unfolding align
align-Near c s arrival h = ground arith

IsPast-later : (a : Option (ℕ × ℕ)) (t u : ℕ) → IsPast a t → t ≤ u → IsPast a u
IsPast-later none t u h le = tt
IsPast-later (some (x, y)) t u h le = omega arith

-- Whatever time stamps the wire carries: along a stream whose arrivals never go back, from an anchor in
-- the past, every stamp given is within 2 s of its message's arrival, before it or after it.
pub align_all-Near :
    (c : ClockAligner) (now : ℕ) (ms : List (Option ℕ × ℕ))
    → IsPast c.anchor now
    → IsMonotone now ms
    → All Near (align_all c ms)
unfolding align_all IsMonotone
align_all-Near c now [] h m = tt
align_all-Near c now ((s, arrival) ∷ ms) h (le, m) =
    let step = align-Near c s arrival (IsPast-later c.anchor now arrival h le) in
    (step.0, align_all-Near (align c s arrival).0 arrival ms step.1 m)

-- Two messages that both carry a sensor stamp, one behind the other, are stamped exactly as far apart as
-- their sensor stamps are, however late the second arrived, or the second re-anchors the stream and is
-- stamped with its own arrival.
pub align-spacing :
    (c : ClockAligner) (s t arrival later : ℕ)
    → let first = align c (some s) arrival in
      let second = align first.0 (some t) later in
      ((second.0 ≡ first.0) × (second.1 + s * 1000 ≡ first.1 + t * 1000))
      ⊎ ((second.0.anchor ≡ some (later, t)) × (second.1 ≡ later))
unfolding align
align-spacing c s t arrival later = ground arith
