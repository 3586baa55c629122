-- ===== src/Hw/Mpu6050/Frozen.antt =====
-- src/hw/mpu6050.rs: how `ReadHealth` ends the stream of a chip that sleeps or of a bus that fails.
use flyingsquirrel.Base.{
  ℕ, ◌+◌, ◌≤◌, ◌<◌, ◌≡◌, refl, sym, ap, ◌∙◌, ◌↔◌, ◌⊎◌, true, List, [], ◌∷◌, Option, none, some,
  arith, min, u32_max,
}
use mathlib.Core.Path.{subst}
use flyingsquirrel.Base.Lists.{length, All, same_bytes}
use flyingsquirrel.Hw.Mpu6050.{
  ReadHealth, ReadVerdict, Trouble, on_read_ok, on_read_err, escalate, refreshed, is_frame,
}

-- A read fails, or it returns a frame; the trouble that follows, if any.
pub data Read : Type 0 where
  failed : Read
  returned : List ℕ → Read

abbrev trouble_of : ReadHealth × ReadVerdict → ReadHealth × Option Trouble
trouble_of (h, ReadVerdict.fresh _) = (h, none)
trouble_of (h, ReadVerdict.frozen t) = (h, some t)

abbrev failed_read : ReadHealth × Trouble → ReadHealth × Option Trouble
failed_read (h, t) = (h, some t)

unfoldable pub read : ReadHealth → Read → ReadHealth × Option Trouble
read h Read.failed = failed_read (on_read_err h)
read h (Read.returned raw) = trouble_of (on_read_ok h raw)

unfoldable pub read_all : ReadHealth → List Read → ReadHealth × List (Option Trouble)
read_all h [] = (h, [])
read_all h (r ∷ rs) =
    let step = read h r in let rest = read_all step.0 rs in (rest.0, step.1 ∷ rest.1)

-- The reads that fail or repeat a frame.
abbrev pub IsStuck : List ℕ → Read → Type 0
IsStuck raw Read.failed = Unit
IsStuck raw (Read.returned r) = r ≡ raw

-- The troubles that follow, counted on from n, with a warning at the 100th, an attempt to start the
-- chip anew at 200, 400, 600 and 800, and the end from the 1000th on.
abbrev pub Ladder : ℕ → List (Option Trouble) → Type 0
Ladder n [] = Unit
Ladder n (none ∷ ts) = ⊥
Ladder n (some t ∷ ts) =
    (t.consecutive_errors ≡ n + 1)
    × ((t.warn_degraded ≡ true) ↔ (n + 1 ≡ 100))
    × ((t.end_stream ≡ true) ↔ (1000 ≤ n + 1))
    × ((t.reinit ≡ true) ↔ ((n + 1 ≡ 200) ⊎ ((n + 1 ≡ 400) ⊎ ((n + 1 ≡ 600) ⊎ (n + 1 ≡ 800)))))
    × Ladder (n + 1) ts

same_bytes_refl : (bs : List ℕ) → same_bytes bs bs ≡ true
same_bytes_refl [] = refl
same_bytes_refl (b ∷ bs) = ground (arith, same_bytes_refl bs)

-- The chip's output has not changed for 99 repeats of a frame, or more.
abbrev pub IsFrozen : List ℕ → ReadHealth → Type 0
IsFrozen raw h = (h.last_raw ≡ some raw) × (99 ≤ h.frozen_run)

pub is_frame_refl :
    (last : Option (List ℕ)) (raw : List ℕ) → last ≡ some raw → is_frame last raw ≡ true
is_frame_refl last raw e = rw e (same_bytes_refl raw)

-- The repeats of the frame among the reads.
abbrev pub repeats : List Read → ℕ
repeats [] = 0
repeats (Read.failed ∷ rs) = repeats rs
repeats (Read.returned _ ∷ rs) = repeats rs + 1

stuck_step :
    (h : ReadHealth) (raw : List ℕ) (r : Read)
    → h.last_raw ≡ some raw
    → IsStuck raw r
    → ((read h r).0.last_raw ≡ some raw)
      × (min 99 (h.frozen_run + repeats (r ∷ [])) ≤ (read h r).0.frozen_run)
      × ((read h r).0.consecutive_errors ≤ h.consecutive_errors + 1)
unfolding read on_read_err on_read_ok escalate refreshed
stuck_step h raw Read.failed e s = ground arith
stuck_step h raw (Read.returned r) e s =
    let found = is_frame_refl h.last_raw r (e ∙ ap some (sym s)) in ground (arith, found)

repeats-split : (r : Read) (rs : List Read) → repeats (r ∷ rs) ≡ repeats (r ∷ []) + repeats rs
repeats-split Read.failed rs = omega arith
repeats-split (Read.returned _) rs = omega arith

stuck-All :
    (h : ReadHealth) (raw : List ℕ) (rs : List Read)
    → h.last_raw ≡ some raw
    → All (IsStuck raw) rs
    → ((read_all h rs).0.last_raw ≡ some raw)
      × (min 99 (h.frozen_run + repeats rs) ≤ (read_all h rs).0.frozen_run)
      × ((read_all h rs).0.consecutive_errors ≤ h.consecutive_errors + length rs)
unfolding read_all
stuck-All h raw [] e s = (e, omega arith, omega arith)
stuck-All h raw (r ∷ rs) e (s, ss) =
    let (same, run, errors) = stuck_step h raw r e s in
    let (same', run', errors') = stuck-All (read h r).0 raw rs same ss in
    (same', omega (arith, run, run', repeats-split r rs), omega (arith, errors, errors'))

frozen_step :
    (h : ReadHealth) (raw : List ℕ) (r : Read) (ts : List (Option Trouble))
    → IsFrozen raw h
    → IsStuck raw r
    → h.consecutive_errors < u32_max
    → ((read h r).0.consecutive_errors ≡ h.consecutive_errors + 1)
      × (Ladder (h.consecutive_errors + 1) ts → Ladder h.consecutive_errors ((read h r).1 ∷ ts))
unfolding read on_read_err on_read_ok escalate refreshed
frozen_step h raw Read.failed ts (e, run) s lt = ground arith
frozen_step h raw (Read.returned r) ts (e, run) s lt =
    let found = is_frame_refl h.last_raw r (e ∙ ap some (sym s)) in ground (arith, found)

frozen-All :
    (h : ReadHealth) (raw : List ℕ) (rs : List Read)
    → IsFrozen raw h
    → All (IsStuck raw) rs
    → h.consecutive_errors + length rs ≤ u32_max
    → Ladder h.consecutive_errors (read_all h rs).1
unfolding read_all
frozen-All h raw [] f s le = tt
frozen-All h raw (r ∷ rs) f (s, ss) le =
    let next = (read h r).0 in
    let (same, run, _) = stuck_step h raw r f.0 s in
    let rest = (read_all next rs).1 in
    let (counted, climb) = frozen_step h raw r rest f s (omega arith) in
    let froze : IsFrozen raw next = (same, omega (arith, run, f.1)) in
    let ih = frozen-All next raw rs froze ss (omega (arith, counted, le)) in
    climb (subst (λ n. Ladder n rest) counted ih)

-- Once a frame has been returned, and then 99 times again with nothing else but failed reads in between,
-- every further read that fails or returns that frame is trouble: the troubles are counted without a gap,
-- the 100th warns, the 200th, 400th, 600th and 800th ask for the chip to be started anew, and the stream
-- ends from the 1000th on (while the reads are fewer than 2^32).
pub frozen_ends :
    (h : ReadHealth) (raw : List ℕ) (before after : List Read)
    → h.last_raw ≡ some raw
    → All (IsStuck raw) before
    → 99 ≤ repeats before
    → All (IsStuck raw) after
    → h.consecutive_errors + length before + length after ≤ u32_max
    → let stuck = (read_all h before).0 in Ladder stuck.consecutive_errors (read_all stuck after).1
frozen_ends h raw before after e s many s' le =
    let (same, run, errors) = stuck-All h raw before e s in
    let froze : IsFrozen raw (read_all h before).0 = (same, omega (arith, run, many)) in
    frozen-All (read_all h before).0 raw after froze s' (omega (arith, errors, le))
