-- ===== src/Hw/SerialGps/Stream.antt =====
-- src/hw/serial_gps.rs: what a connection yields over its life.
use flyingsquirrel.Base.{
  ℕ, ◌+◌, ◌%◌, ◌^◌, ◌≤◌, ◌<◌, ◌≡◌, refl, ap, ◌∙◌, ◌⊎◌, inl, inr, Bool, true, false, List, [], ◌∷◌,
  ◌++◌, none, some, arith, ltb, if◌then◌else◌, Bool-cases,
}
use mathlib.Core.Path.{subst}
use flyingsquirrel.Base.Floats.{Floats}
use flyingsquirrel.Base.Lists.{length}
use flyingsquirrel.Types.{GpsFix}
use flyingsquirrel.Mav.Ingest.{gps_fix_is_plausible}
use flyingsquirrel.Hw.NmeaCodec.{NmeaLine}
use flyingsquirrel.Hw.NmeaLink.{
  LinkHealth, LinkState, on_event, on_fix, on_fix_rejected, on_parse_error, observe_bytes, poll,
  poll_as, classify, complain, speak, recover,
}
use flyingsquirrel.Hw.NmeaSentence.{NmeaParser, Sentence, parse_sentence}
use flyingsquirrel.Hw.SerialGps.{
  Connection, SerialEvent, Selected, opened, on_sentence, on_text, on_frame, on_probe,
  connection_stream, starts_dollar,
}

module _ (F : Floats) (N : NmeaParser F) where
  -- Plausible fixes and then the end, once, which says whether there had been a fix.
  abbrev pub Ends : Bool → List (SerialEvent F N) → Type 0
  Ends had [] = ⊥
  Ends had (SerialEvent.fix f ∷ es) = (gps_fix_is_plausible F f ≡ true) × Ends true es
  Ends had (SerialEvent.disconnected b ∷ []) = b ≡ had
  Ends had (SerialEvent.disconnected b ∷ _ ∷ _) = ⊥

  abbrev fixes : Connection F N → ℕ
  fixes c = c.health.counts.fixes

  -- Nothing is yielded, or one plausible fix, which is counted.
  abbrev Yields : Connection F N → Connection F N × List (SerialEvent F N) → Type 0
  Yields c (c', es) =
      ((es ≡ []) × (fixes c' ≡ fixes c))
      ⊎ ((f : GpsFix F) × (es ≡ SerialEvent.fix f ∷ [])
          × (gps_fix_is_plausible F f ≡ true)
          × (fixes c' ≡ (fixes c + 1) % 2 ^ 64))

  on_sentence-Yields :
      (c : Connection F N) (now : ℕ) (s : Sentence F N) → Yields c (on_sentence F N c now s)
  unfolding on_sentence on_parse_error on_fix on_fix_rejected
  on_sentence-Yields c now Sentence.malformed = inl (refl, refl)
  on_sentence-Yields c now (Sentence.parsed none) = inl (refl, refl)
  on_sentence-Yields c now (Sentence.parsed (some f)) =
      elim (Bool-cases (gps_fix_is_plausible F f)) [
        | inl p ↦ rw (p, if◌then◌else◌) (inr (f, refl, p, refl))
        | inr p ↦ rw (p, if◌then◌else◌) (inl (refl, refl))
      ]

  on_event-fixes :
      (h : LinkHealth) (evt : NmeaLine) (now : ℕ)
      → (on_event h evt now).counts.fixes ≡ h.counts.fixes
  unfolding on_event
  on_event-fixes h evt now = ground arith

  on_text-Yields :
      (c : Connection F N) (text : List ℕ) (now mono_ns : ℕ)
      → Yields c (on_text F N c text now mono_ns)
  unfolding on_text
  on_text-Yields c text now mono_ns =
      let r = parse_sentence F N c.parser text mono_ns in
      let read = on_sentence-Yields (record c { parser = r.0 }) now r.1 in
      elim (Bool-cases (starts_dollar text)) [
        | inl d ↦ rw (d, if◌then◌else◌) read
        | inr d ↦ rw (d, if◌then◌else◌) (inl (refl, refl))
      ]

  same_fixes :
      (c d : Connection F N) (r : Connection F N × List (SerialEvent F N))
      → fixes d ≡ fixes c
      → Yields d r
      → Yields c r
  same_fixes c d (c', es) e (inl (none_yet, kept)) = inl (none_yet, kept ∙ e)
  same_fixes c d (c', es) e (inr (f, one, p, counted)) =
      inr (f, one, p, counted ∙ ap (λ n. (n + 1) % 2 ^ 64) e)

  on_frame-Yields :
      (c : Connection F N) (evt : NmeaLine) (now mono_ns : ℕ)
      → Yields c (on_frame F N c evt now mono_ns)
  unfolding on_frame
  on_frame-Yields c (NmeaLine.line text) now mono_ns =
      let heard = record c { health = on_event c.health (NmeaLine.line text) now } in
      same_fixes c heard (on_text F N heard text now mono_ns)
        (on_event-fixes c.health (NmeaLine.line text) now) (on_text-Yields heard text now mono_ns)
  on_frame-Yields c (NmeaLine.non_utf8 n) now mono_ns =
      inl (refl, on_event-fixes c.health (NmeaLine.non_utf8 n) now)
  on_frame-Yields c (NmeaLine.overlong n) now mono_ns =
      inl (refl, on_event-fixes c.health (NmeaLine.overlong n) now)

  poll_as-fixes :
      (h : LinkHealth) (now : ℕ) (s : LinkState) → (poll_as h now s).0.counts.fixes ≡ h.counts.fixes
  unfolding poll_as complain speak recover
  poll_as-fixes h now s = ground arith

  observe_bytes-fixes :
      (h : LinkHealth) (seen now : ℕ) → (observe_bytes h seen now).counts.fixes ≡ h.counts.fixes
  unfolding observe_bytes
  observe_bytes-fixes h seen now = ground arith

  on_probe-fixes : (c : Connection F N) (seen now : ℕ) → fixes (on_probe F N c seen now) ≡ fixes c
  unfolding on_probe poll
  on_probe-fixes c seen now =
      let h = observe_bytes c.health seen now in
      poll_as-fixes h now (classify h now) ∙ observe_bytes-fixes c.health seen now

  Yields-Ends :
      (c : Connection F N) (r : Connection F N × List (SerialEvent F N))
      (rest : List (SerialEvent F N))
      → fixes c + 1 < 2 ^ 64
      → Yields c r
      → Ends (ltb 0 (fixes r.0)) rest
      → Ends (ltb 0 (fixes c)) (r.1 ++ rest)
  Yields-Ends c (c', es) rest lt (inl (e, same)) ends =
      rw e (subst (λ n. Ends (ltb 0 n) rest) same ends)
  Yields-Ends c (c', es) rest lt (inr (f, e, p, counted)) ends =
      let some_fix : ltb 0 (fixes c') ≡ true = ground (arith, counted, lt) in
      rw e (p, subst (λ b. Ends b rest) some_fix ends)

  Yields-fixes :
      (c : Connection F N) (r : Connection F N × List (SerialEvent F N))
      → Yields c r
      → fixes r.0 ≤ fixes c + 1
  Yields-fixes c (c', es) (inl (e, same)) = omega (arith, same)
  Yields-fixes c (c', es) (inr (f, e, p, counted)) = omega (arith, counted)

  connection_stream-Ends :
      (c : Connection F N) (xs : List (Selected F N))
      → fixes c + length xs < 2 ^ 64
      → Ends (ltb 0 (fixes c)) (connection_stream F N c xs)
  unfolding connection_stream
  connection_stream-Ends c [] lt = refl
  connection_stream-Ends c (Selected.framed evt now mono_ns ∷ xs) lt =
      let r = on_frame F N c evt now mono_ns in
      let yields = on_frame-Yields c evt now mono_ns in
      let grown = Yields-fixes c r yields in
      Yields-Ends c r (connection_stream F N r.0 xs) (omega (arith, lt)) yields
        (connection_stream-Ends r.0 xs (omega (arith, grown, lt)))
  connection_stream-Ends c (Selected.probed seen now ∷ xs) lt =
      let same = on_probe-fixes c seen now in
      subst (λ n. Ends (ltb 0 n) (connection_stream F N (on_probe F N c seen now) xs)) same
        (connection_stream-Ends (on_probe F N c seen now) xs (omega (arith, same, lt)))

  -- Whatever frames and probes come, and whatever the sentences parse to: a connection yields fixes that
  -- are all plausible, then exactly one Disconnected as its last event, which says truly whether there
  -- had been a fix (for fewer than 2^64 of them).
  pub connection_stream-opened :
      (xs : List (Selected F N))
      → length xs < 2 ^ 64
      → Ends false (connection_stream F N (opened F N) xs)
  connection_stream-opened xs lt = connection_stream-Ends (opened F N) xs (omega (arith, lt))
