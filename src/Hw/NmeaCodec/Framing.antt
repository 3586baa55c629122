-- ===== src/Hw/NmeaCodec/Framing.antt =====
-- src/hw/nmea_link.rs: what `NmeaLineCodec` makes of a stream that arrives in chunks, against a
-- description of the stream as a whole.
use flyingsquirrel.Base.{
  ℕ, zero, suc, ◌+◌, ◌-◌, ◌%◌, ◌^◌, ◌≤◌, ◌<◌, ◌≡◌, refl, inl, inr, List, [], ◌∷◌, ◌++◌, map, Option,
  none, some, arith, ltb, ltb→lt, ◌==◌, if◌then◌else◌, Bool-cases,
}
use flyingsquirrel.Base.Lists.{length}
use flyingsquirrel.Hw.NmeaCodec.{
  NmeaLine, NmeaLineCodec, nmea_max_line_bytes, decode, onto_line, split_line, take_event,
  line_event,
}

-- The lines of a stream that '\n' ends, and what stands behind the last.
abbrev pub onto_frames : ℕ → List (List ℕ) × List ℕ → List (List ℕ) × List ℕ
onto_frames b ([], tail) = ([], b ∷ tail)
onto_frames b (l ∷ ls, tail) = ((b ∷ l) ∷ ls, tail)

unfoldable pub frames : List ℕ → List (List ℕ) × List ℕ
frames [] = ([], [])
frames (b ∷ bs) = let r = frames bs in if b == 10 then ([] ∷ r.0, r.1) else onto_frames b r

abbrev after_event :
    NmeaLineCodec × List ℕ
    → NmeaLineCodec × List ℕ × List NmeaLine
    → Option NmeaLine
    → NmeaLineCodec × List ℕ × List NmeaLine
after_event (c, src) rest none = (c, src, [])
after_event (c, src) (c', src', es) (some e) = (c', src', e ∷ es)

-- `decode`, until it has no event.
unfoldable pub drain : ℕ → NmeaLineCodec → List ℕ → NmeaLineCodec × List ℕ × List NmeaLine
drain zero c src = (c, src, [])
drain (suc fuel) c src =
    let r = decode c src in let rest = drain fuel r.0 r.1 in after_event (r.0, r.1) rest r.2

-- A chunk arrives behind what is in the buffer.
unfoldable pub feed : NmeaLineCodec → List ℕ → List ℕ → NmeaLineCodec × List ℕ × List NmeaLine
feed c buf chunk = drain (length (buf ++ chunk) + 1) c (buf ++ chunk)

abbrev frames_after : List ℕ → Option (List ℕ × List ℕ) → List (List ℕ) × List ℕ
frames_after src none = ([], src)
frames_after src (some (front, rest)) = (front ∷ (frames rest).0, (frames rest).1)

frames_after-onto :
    (b : ℕ) (bs : List ℕ) (o : Option (List ℕ × List ℕ))
    → frames bs ≡ frames_after bs o
    → onto_frames b (frames bs) ≡ frames_after (b ∷ bs) (onto_line b o)
frames_after-onto b bs none e = rw e refl
frames_after-onto b bs (some (front, rest)) e = rw e refl

frames-split : (src : List ℕ) → frames src ≡ frames_after src (split_line src)
unfolding split_line frames
frames-split [] = refl
frames-split (b ∷ bs) = elim (Bool-cases (b == 10)) [
  | inl c ↦ rw (c, if◌then◌else◌) refl
  | inr c ↦ rw (c, if◌then◌else◌) (frames_after-onto b bs (split_line bs) (frames-split bs))
]

abbrev Shorter : List ℕ → Option (List ℕ × List ℕ) → Type 0
Shorter src none = Unit
Shorter src (some (front, rest)) = length rest < length src

split_line-Shorter : (src : List ℕ) → Shorter src (split_line src)
unfolding split_line
split_line-Shorter [] = tt
split_line-Shorter (b ∷ bs) = ground (arith, split_line-Shorter bs)

-- The codec, the buffer and the events, for a buffer of n bytes with the frames given: an event for
-- each line, and one more where the tail is too long, which is then dropped.
abbrev pub outcome :
    NmeaLineCodec → ℕ → List (List ℕ) × List ℕ → NmeaLineCodec × List ℕ × List NmeaLine
outcome c n (ls, tail) =
    let over = ltb nmea_max_line_bytes (length tail) in
    let left = if over then [] else tail in
    (
      record { bytes_seen = (c.bytes_seen + (n - c.last_len)) % 2 ^ 64; last_len = length left },
      left,
      map line_event ls ++ (if over then NmeaLine.overlong (length tail) ∷ [] else []),
    )

counted_once : (b n : ℕ) → (b % 2 ^ 64 + (n - n)) % 2 ^ 64 ≡ b % 2 ^ 64
counted_once b n = omega arith

drain-after :
    (fuel : ℕ) (c : NmeaLineCodec) (src : List ℕ) (o : Option (List ℕ × List ℕ))
    → ((c : NmeaLineCodec) (src : List ℕ)
        → length src < fuel
        → drain fuel c src ≡ outcome c (length src) (frames src))
    → length src ≤ fuel
    → Shorter src o
    → split_line src ≡ o
    → drain (suc fuel) c src ≡ outcome c (length src) (frames_after src o)
unfolding drain decode take_event frames
drain-after fuel c src none ih lt sh e = elim (Bool-cases (ltb nmea_max_line_bytes (length src))) [
  | inl over ↦
      let longer = ltb→lt _ _ over in
      rw (e, over, if◌then◌else◌, ih _ [] (omega (arith, longer, lt)), frames, counted_once) refl
  | inr short ↦ rw (e, short, if◌then◌else◌) refl
]
drain-after fuel c src (some (front, rest)) ih lt sh e =
    rw (e, ih _ rest (omega (arith, lt, sh)), counted_once) refl

drain-outcome :
    (fuel : ℕ) (c : NmeaLineCodec) (src : List ℕ)
    → length src < fuel
    → drain fuel c src ≡ outcome c (length src) (frames src)
drain-outcome zero c src lt = absurd (omega arith)
drain-outcome (suc fuel) c src lt = rw (frames-split src) (
    drain-after fuel c src (split_line src) (λ c src lt. drain-outcome fuel c src lt) (omega arith)
      (split_line-Shorter src) refl)

-- A chunk of any bytes, whatever stands in the buffer: decoding until there is no event comes to an end
-- and yields exactly the lines of the buffer with the chunk behind it, each as its event, the bytes
-- behind the last line staying in the buffer; where those are more than 512 they are dropped, with one
-- event that counts them, so that the buffer never keeps more than that.
pub feed-outcome :
    (c : NmeaLineCodec) (buf chunk : List ℕ)
    → (feed c buf chunk ≡ outcome c (length (buf ++ chunk)) (frames (buf ++ chunk)))
      × (length (feed c buf chunk).1 ≤ 512)
unfolding feed
feed-outcome c buf chunk =
    let all = drain-outcome (length (buf ++ chunk) + 1) c (buf ++ chunk) (omega arith) in
    (all, rw all (ground arith))
