-- ===== src/Hw/NmeaCodec/Chunks.antt =====
-- src/hw/nmea_link.rs: that the lines `NmeaLineCodec` yields do not depend on how the stream was cut.
use flyingsquirrel.Base.{
  ℕ, ◌+◌, ◌-◌, ◌%◌, ◌^◌, ◌≤◌, ◌≡◌, refl, sym, ◌∙◌, false, List, [], ◌∷◌, ◌++◌, map, arith, ltb,
  ◌==◌, if◌then◌else◌, Bool-cases, inl, inr,
}
use mathlib.Core.Path.{subst}
use mathlib.Core.List.{append-nil, append_assoc, map-append}
use flyingsquirrel.Base.Lists.{length, length-append, All}
use flyingsquirrel.Hw.NmeaCodec.{NmeaLine, NmeaLineCodec, nmea_max_line_bytes, new, line_event}
use flyingsquirrel.Hw.NmeaCodec.Framing.{frames, onto_frames, feed, feed-outcome}

abbrev behind : List (List ℕ) → List (List ℕ) × List ℕ → List (List ℕ) × List ℕ
behind ls (ls', tail) = (ls ++ ls', tail)

onto-behind :
    (b : ℕ) (ys : List ℕ) (r : List (List ℕ) × List ℕ)
    → (b == 10) ≡ false
    → onto_frames b (behind r.0 (frames (r.1 ++ ys)))
      ≡ behind (onto_frames b r).0 (frames ((onto_frames b r).1 ++ ys))
unfolding frames
onto-behind b ys ([], tail) e = rw (e, if◌then◌else◌) refl
onto-behind b ys (l ∷ ls, tail) e = refl

-- What stands in front of the last '\n' stays as it is when more arrives.
frames-append :
    (xs ys : List ℕ) → frames (xs ++ ys) ≡ behind (frames xs).0 (frames ((frames xs).1 ++ ys))
unfolding frames
frames-append [] ys = refl
frames-append (b ∷ bs) ys = elim (Bool-cases (b == 10)) [
  | inl c ↦ rw (c, if◌then◌else◌, frames-append bs ys) refl
  | inr c ↦ rw (c, if◌then◌else◌, frames-append bs ys) (onto-behind b ys (frames bs) c)
]

abbrev NoNewline : List ℕ → Type 0
NoNewline bs = All (λ b. (b == 10) ≡ false) bs

onto-NoNewline :
    (b : ℕ) (r : List (List ℕ) × List ℕ)
    → (b == 10) ≡ false
    → NoNewline r.1
    → NoNewline (onto_frames b r).1
onto-NoNewline b ([], tail) e h = (e, h)
onto-NoNewline b (l ∷ ls, tail) e h = h

tail-NoNewline : (xs : List ℕ) → NoNewline (frames xs).1
unfolding frames
tail-NoNewline [] = tt
tail-NoNewline (b ∷ bs) = elim (Bool-cases (b == 10)) [
  | inl c ↦ rw (c, if◌then◌else◌) (tail-NoNewline bs)
  | inr c ↦ rw (c, if◌then◌else◌) (onto-NoNewline b (frames bs) c (tail-NoNewline bs))
]

-- Every line is short enough for the buffer, and so is what stands behind the last.
abbrev pub Short : List (List ℕ) × List ℕ → Type 0
Short (ls, tail) =
    All (λ l. length l ≤ nmea_max_line_bytes) ls × (length tail ≤ nmea_max_line_bytes)

abbrev front_length : List (List ℕ) × List ℕ → ℕ
front_length ([], tail) = length tail
front_length (l ∷ ls, tail) = length l

onto-front_length :
    (b : ℕ) (r : List (List ℕ) × List ℕ) → front_length (onto_frames b r) ≡ front_length r + 1
onto-front_length b ([], tail) = omega arith
onto-front_length b (l ∷ ls, tail) = omega arith

NoNewline-front : (t ys : List ℕ) → NoNewline t → length t ≤ front_length (frames (t ++ ys))
unfolding frames
NoNewline-front [] ys h = omega arith
NoNewline-front (b ∷ t) ys (e, h) =
    rw (e, if◌then◌else◌, onto-front_length) (omega (arith, NoNewline-front t ys h))

Short-front : (r : List (List ℕ) × List ℕ) → Short r → front_length r ≤ nmea_max_line_bytes
Short-front ([], tail) (lines, last) = last
Short-front (l ∷ ls, tail) ((first, lines), last) = first

Short-behind : (ls : List (List ℕ)) (r : List (List ℕ) × List ℕ) → Short (behind ls r) → Short r
Short-behind [] r h = h
Short-behind (l ∷ ls) r ((first, lines), last) = Short-behind ls r (lines, last)

Short-tail : (xs ys : List ℕ) → Short (frames (xs ++ ys)) → Short (frames ((frames xs).1 ++ ys))
Short-tail xs ys h = Short-behind (frames xs).0 _ (subst Short (frames-append xs ys) h)

tail-Short :
    (xs ys : List ℕ) → Short (frames (xs ++ ys)) → length (frames xs).1 ≤ nmea_max_line_bytes
tail-Short xs ys h =
    let front = NoNewline-front (frames xs).1 ys (tail-NoNewline xs) in
    let bound = Short-front _ (Short-tail xs ys h) in omega (arith, front, bound)

abbrev before :
    List NmeaLine → NmeaLineCodec × List ℕ × List NmeaLine → NmeaLineCodec × List ℕ × List NmeaLine
before es (c, buf, es') = (c, buf, es ++ es')

not_below : (a b : ℕ) → b ≤ a → ltb a b ≡ false
not_below a b h = ground arith

arrivals : (buf chunk : List ℕ) (n : ℕ) → n ≡ length buf → length (buf ++ chunk) - n ≡ length chunk
arrivals buf chunk n e = omega (arith, length-append buf chunk, e)

-- The chunks of a stream, one read after the other.
unfoldable pub feed_all :
    NmeaLineCodec → List ℕ → List (List ℕ) → NmeaLineCodec × List ℕ × List NmeaLine
feed_all c buf [] = (c, buf, [])
feed_all c buf (chunk ∷ chunks) = let r = feed c buf chunk in before r.2 (feed_all r.0 r.1 chunks)

unfoldable pub concat : List (List ℕ) → List ℕ
concat [] = []
concat (chunk ∷ chunks) = chunk ++ concat chunks

abbrev pub Yields : List ℕ → ℕ → NmeaLineCodec × List ℕ × List NmeaLine → Type 0
Yields stream seen (c, buf, es) =
    (es ≡ map line_event (frames stream).0)
    × (buf ≡ (frames stream).1)
    × (c.bytes_seen ≡ seen % 2 ^ 64)

frames-NoNewline : (t : List ℕ) → NoNewline t → frames t ≡ ([], t)
unfolding frames
frames-NoNewline [] h = refl
frames-NoNewline (b ∷ t) (e, h) = rw (e, if◌then◌else◌, frames-NoNewline t h) refl

-- A chunk that leaves a short tail.
feed-short :
    (c : NmeaLineCodec) (buf chunk : List ℕ)
    → c.last_len ≡ length buf
    → length (frames (buf ++ chunk)).1 ≤ nmea_max_line_bytes
    → feed c buf chunk ≡ (
      record {
        bytes_seen = (c.bytes_seen + length chunk) % 2 ^ 64;
        last_len = length (frames (buf ++ chunk)).1;
      },
      (frames (buf ++ chunk)).1,
      map line_event (frames (buf ++ chunk)).0,
    )
feed-short c buf chunk len short =
    let fits = not_below nmea_max_line_bytes (length (frames (buf ++ chunk)).1) short in
    let arrived = arrivals buf chunk c.last_len len in
    (feed-outcome c buf chunk).0 ∙ rw (fits, if◌then◌else◌, arrived, append-nil) refl

feed_all-Yields :
    (c : NmeaLineCodec) (buf : List ℕ) (chunks : List (List ℕ))
    → c.last_len ≡ length buf
    → frames buf ≡ ([], buf)
    → Short (frames (buf ++ concat chunks))
    → c.bytes_seen ≡ c.bytes_seen % 2 ^ 64
    → Yields (buf ++ concat chunks) (c.bytes_seen + length (concat chunks)) (feed_all c buf chunks)
unfolding feed_all concat
feed_all-Yields c buf [] len whole short wrapped =
    rw (append-nil buf, whole) (refl, refl, omega (arith, wrapped))
feed_all-Yields c buf (chunk ∷ chunks) len whole short wrapped =
    let rest = concat chunks in
    let seen = buf ++ chunk in
    let tail = (frames seen).1 in
    let joined = sym (append_assoc buf chunk rest) in
    let short' = subst (λ s. Short (frames s)) joined short in
    let fed = feed-short c buf chunk len (tail-Short seen rest short') in
    let c' : NmeaLineCodec = record {
      bytes_seen = (c.bytes_seen + length chunk) % 2 ^ 64;
      last_len = length tail;
    } in
    let clean = frames-NoNewline tail (tail-NoNewline seen) in
    let (lines, left, count) =
      feed_all-Yields c' tail chunks refl clean (Short-tail seen rest short') (omega arith) in
    rw (joined, fed, frames-append seen rest)
      (rw (lines, map-append) refl, left, omega (arith, count, length-append chunk rest))

-- A stream whose lines, and what stands behind the last, have at most 512 bytes, cut into chunks at
-- any places: the events are those of its lines in order, what is left in the buffer is what stands behind
-- the last of them, and the bytes seen are the stream's, modulo 2^64.
pub feed_all-new :
    (chunks : List (List ℕ))
    → Short (frames (concat chunks))
    → Yields (concat chunks) (length (concat chunks)) (feed_all new [] chunks)
unfolding frames
feed_all-new chunks short =
    let (events, left, count) = feed_all-Yields new [] chunks refl refl short refl in
    (events, left, omega (arith, count))
