-- ===== src/Hw/NmeaCodec.antt =====
-- src/hw/nmea_link.rs: `NmeaLineCodec`. The buffer is the list of bytes received and not yet consumed; a
-- line's text is the list of its bytes.
pub mod Framing
pub mod Chunks
use flyingsquirrel.Base.{
  ℕ, zero, suc, ◌+◌, ◌-◌, ◌%◌, ◌^◌, Bool, true, false, ◌&&◌, ◌||◌, List, [], ◌∷◌, ◌++◌, Option,
  none, some, ltb, leb, ◌==◌, if◌then◌else◌,
}
use flyingsquirrel.Base.Lists.{length}

abbrev pub nmea_max_line_bytes : ℕ
nmea_max_line_bytes = 512

pub data NmeaLine : Type 0 where
  line : List ℕ → NmeaLine
  non_utf8 : ℕ → NmeaLine
  overlong : ℕ → NmeaLine

pub record NmeaLineCodec : Type 0 where
  pub bytes_seen : ℕ
  pub last_len : ℕ

abbrev pub new : NmeaLineCodec
new = record { bytes_seen = 0; last_len = 0 }

-- The ranges of the bytes that must follow a first byte of UTF-8, if it is one.
abbrev utf8_following : ℕ → Option (List (ℕ × ℕ))
utf8_following b =
    if ltb b 128
    then some []
    else if leb 194 b && leb b 223
    then some ((128, 191) ∷ [])
    else if b == 224
    then some ((160, 191) ∷ (128, 191) ∷ [])
    else if b == 237
    then some ((128, 159) ∷ (128, 191) ∷ [])
    else if leb 225 b && leb b 239
    then some ((128, 191) ∷ (128, 191) ∷ [])
    else if b == 240
    then some ((144, 191) ∷ (128, 191) ∷ (128, 191) ∷ [])
    else if leb 241 b && leb b 243
    then some ((128, 191) ∷ (128, 191) ∷ (128, 191) ∷ [])
    else if b == 244
    then some ((128, 143) ∷ (128, 191) ∷ (128, 191) ∷ [])
    else none

-- `String::from_utf8`, from within a character that lacks bytes of the ranges given.
unfoldable pub is_utf8_from : Option (List (ℕ × ℕ)) → List ℕ → Bool
is_utf8_from none bs = false
is_utf8_from (some []) [] = true
is_utf8_from (some (_ ∷ _)) [] = false
is_utf8_from (some []) (b ∷ bs) = is_utf8_from (utf8_following b) bs
is_utf8_from (some ((lo, hi) ∷ more)) (b ∷ bs) =
    let rest = is_utf8_from (some more) bs in leb lo b && (leb b hi && rest)

abbrev pub is_utf8 : List ℕ → Bool
is_utf8 bs = is_utf8_from (some []) bs

-- The bytes before the first '\n', and those behind it.
abbrev onto_line : ℕ → Option (List ℕ × List ℕ) → Option (List ℕ × List ℕ)
onto_line b none = none
onto_line b (some (front, rest)) = some (b ∷ front, rest)

unfoldable pub split_line : List ℕ → Option (List ℕ × List ℕ)
split_line [] = none
split_line (b ∷ bs) = let r = split_line bs in if b == 10 then some ([], bs) else onto_line b r

unfoldable pub strip_cr : List ℕ → List ℕ
strip_cr [] = []
strip_cr (b ∷ bs) = let rest = strip_cr bs in if b == 13 then rest else b ∷ rest

-- The event of a line, without its '\n'.
unfoldable pub line_event : List ℕ → NmeaLine
line_event bs =
    let trimmed = strip_cr bs in
    if is_utf8 trimmed then NmeaLine.line trimmed else NmeaLine.non_utf8 (length trimmed)

abbrev overlong_event : List ℕ → List ℕ × Option NmeaLine
overlong_event src =
    if ltb nmea_max_line_bytes (length src)
    then ([], some (NmeaLine.overlong (length src)))
    else (src, none)

-- What is left of the buffer, and the event.
unfoldable pub take_event : List ℕ → Option (List ℕ × List ℕ) → List ℕ × Option NmeaLine
take_event src none = overlong_event src
take_event src (some (front, rest)) = (rest, some (line_event front))

unfoldable pub decode : NmeaLineCodec → List ℕ → NmeaLineCodec × List ℕ × Option NmeaLine
decode c src =
    let r = take_event src (split_line src) in
    (
      record {
        bytes_seen = (c.bytes_seen + (length src - c.last_len)) % 2 ^ 64;
        last_len = length r.0;
      },
      r.0,
      r.1,
    )

discard_tail : NmeaLineCodec × List ℕ × Option NmeaLine → NmeaLineCodec × List ℕ × Option NmeaLine
discard_tail (c, src, some e) = (c, src, some e)
discard_tail (c, src, none) = (record c { last_len = 0 }, [], none)

unfoldable pub decode_eof : NmeaLineCodec → List ℕ → NmeaLineCodec × List ℕ × Option NmeaLine
unfolding discard_tail
decode_eof c src = discard_tail (decode c src)
