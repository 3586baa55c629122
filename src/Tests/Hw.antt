-- ===== src/Tests/Hw.antt =====
-- Runs of src/hw: the board's orientation, the NMEA framing, the health of the link and of the chip.
use flyingsquirrel.Base.{
  ℕ, zero, suc, ◌+◌, ◌-◌, ◌≤◌, ◌≡◌, refl, ◌↔◌, true, false, Option, min, List, [], ◌∷◌, ◌++◌, none,
  some, arith,
}
use flyingsquirrel.Base.Fixed.{fin, fixed}
use flyingsquirrel.Hw.NmeaSentence.{NmeaParser, SentenceType, FixType}
use flyingsquirrel.Hw.SerialGps.{Selected, opened, connection_stream}
use flyingsquirrel.Hw.SerialGps.Stream.{Ends, connection_stream-opened}
use flyingsquirrel.Hw.I2cImu.{into_stream}
use flyingsquirrel.Hw.I2cImu.Stalled.{IsTrouble, into_stream-Stuck}
use flyingsquirrel.Base.Int.{pos}
use flyingsquirrel.Base.Lists.{length, All}
use flyingsquirrel.Hw.AxisMap.{AxisMap, Sign, validate}
use flyingsquirrel.Hw.AxisMap.Turns.{IsTurned, validate_iff}
use flyingsquirrel.Hw.NmeaCodec.{NmeaLineCodec, NmeaLine, new}
use flyingsquirrel.Hw.NmeaCodec.Framing.{frames, feed, outcome, feed-outcome}
use flyingsquirrel.Hw.NmeaCodec.Chunks.{concat, feed_all, Yields, feed_all-new}
use flyingsquirrel.Hw.NmeaLink.{new as link_new}
use flyingsquirrel.Hw.NmeaLink.Reports as LinkReports
use flyingsquirrel.Hw.Mpu6050.{ReadHealth, new as health_new}
use flyingsquirrel.Hw.Mpu6050.Frozen.{Read, Ladder, read_all, frozen_ends}

-- "-Y,X,Z".
abbrev yawed : AxisMap
yawed = record { body_x = (1, Sign.minus); body_y = (0, Sign.plus); body_z = (2, Sign.plus) }

validate_iff_example : (validate yawed ≡ true) ↔ IsTurned yawed
validate_iff_example = validate_iff yawed

-- "$G\r\n$", behind "$A\n" of which "$A" was there.
feed-outcome_example :
    let c : NmeaLineCodec = record { bytes_seen = 2; last_len = 2 } in
    let chunk : List ℕ = 10 ∷ 36 ∷ 71 ∷ 13 ∷ 10 ∷ 36 ∷ [] in
    let buf : List ℕ = 36 ∷ 65 ∷ [] in
    (feed c buf chunk ≡ outcome c (length (buf ++ chunk)) (frames (buf ++ chunk)))
    × (length (feed c buf chunk).1 ≤ 512)
feed-outcome_example =
    feed-outcome (record { bytes_seen = 2; last_len = 2 }) (36 ∷ 65 ∷ [])
      (10 ∷ 36 ∷ 71 ∷ 13 ∷ 10 ∷ 36 ∷ [])

abbrev chunks : List (List ℕ)
chunks = (36 ∷ 65 ∷ []) ∷ (10 ∷ 36 ∷ 71 ∷ []) ∷ (13 ∷ 10 ∷ 36 ∷ []) ∷ []

feed_all-new_example : Yields (concat chunks) (length (concat chunks)) (feed_all new [] chunks)
unfolding concat frames
feed_all-new_example = feed_all-new chunks ((omega arith, (omega arith, tt)), omega arith)

abbrev heard : List LinkReports.Input
heard =
    LinkReports.Input.polled 11000000000
    ∷ LinkReports.Input.polled 12000000000
    ∷ LinkReports.Input.fix 13000000000
    ∷ LinkReports.Input.polled 14000000000
    ∷ []

reports-Paced_example :
    (last : LinkReports.Episode) × LinkReports.Tracks (LinkReports.input_all link_new heard).0 last
    × LinkReports.Paced none (LinkReports.input_all link_new heard).1 last
reports-Paced_example = LinkReports.reports-Paced heard

abbrev slept : ReadHealth
slept = record health_new { last_raw = some (1 ∷ 2 ∷ []) }

abbrev again : ℕ → List Read
again zero = []
again (suc n) = Read.returned (1 ∷ 2 ∷ []) ∷ again n

frozen_ends_example :
    let stuck = (read_all slept (again 99)).0 in
    Ladder stuck.consecutive_errors (read_all stuck (Read.failed ∷ [])).1
frozen_ends_example =
    frozen_ends slept (1 ∷ 2 ∷ []) (again 99) (Read.failed ∷ []) refl (ground arith) (omega arith)
      (tt, tt) (omega arith)

-- A parser for which each line is a fix at 1000 m.
abbrev one_fix : NmeaParser fixed
one_fix = record {
  State = ℕ;
  initial = 0;
  parse = λ s text. (s + 1, some SentenceType.gga);
  fix_type = λ s. some FixType.gps;
  latitude = λ s. some (fin (pos 47000));
  longitude = λ s. some (fin (pos 8000));
  altitude = λ s. some (fin (pos 1000000));
  hdop = λ s. none;
  fix_satellites = λ s. some 9;
  speed_over_ground = λ s. none;
  true_course = λ s. none;
}

abbrev selected : List (Selected fixed one_fix)
selected =
    Selected.framed (NmeaLine.line (36 ∷ [])) 1000000000 1000000000
    ∷ Selected.framed (NmeaLine.overlong 600) 2000000000 2000000000
    ∷ Selected.probed 700 7000000000
    ∷ []

connection_stream-opened_example :
    Ends fixed one_fix false (connection_stream fixed one_fix (opened fixed one_fix) selected)
connection_stream-opened_example = connection_stream-opened fixed one_fix selected (omega arith)

abbrev asleep : ReadHealth
asleep = record { consecutive_errors = 997; last_raw = some (1 ∷ 2 ∷ []); frozen_run = 1096 }

-- Two more repeats and a failure, of which the stream sees all three, and a read that it does not see.
abbrev last_reads : List (Option (List ℕ) × ℕ)
last_reads =
    (some (1 ∷ 2 ∷ []), 1) ∷ (none, 2) ∷ (some (1 ∷ 2 ∷ []), 3) ∷ (some (1 ∷ 2 ∷ []), 4) ∷ []

into_stream-Stuck_example :
    let ticks = into_stream fixed yawed asleep last_reads in
    All (IsTrouble fixed yawed) ticks × (length ticks ≡ min (length last_reads) (1000 - 997))
into_stream-Stuck_example =
    into_stream-Stuck fixed yawed asleep (1 ∷ 2 ∷ []) last_reads (refl, omega arith) (omega arith)
      (refl, (tt, (refl, (refl, tt))))
