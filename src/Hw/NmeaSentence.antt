-- ===== src/Hw/NmeaSentence.antt =====
-- src/ingest/nmea.rs: `parse_sentence`. The `nmea` crate's parser is a parameter: its state, its `parse`, and
-- the fields that the code reads of it.
use flyingsquirrel.Base.{
  ℕ, ◌%◌, Bool, true, false, List, Option, none, some, if◌then◌else◌, unwrap_or,
}
use flyingsquirrel.Base.Floats.{Floats, nought}
use flyingsquirrel.Types.{GpsFix}

-- `GGA` and `RMC`, and all other sentences.
pub data SentenceType : Type 0 where
  gga rmc other_sentence : SentenceType

-- `Gps`, `DGps` and `Pps`, and all other fixes.
pub data FixType : Type 0 where
  gps dgps pps other_fix : FixType

pub record NmeaParser (F : Floats) : Type 1 where
  pub State : Type 0
  pub initial : State
  pub parse : State → List ℕ → State × Option SentenceType
  pub fix_type : State → Option FixType
  pub latitude : State → Option F.F64
  pub longitude : State → Option F.F64
  pub altitude : State → Option F.F32
  pub hdop : State → Option F.F32
  pub fix_satellites : State → Option ℕ
  pub speed_over_ground : State → Option F.F32
  pub true_course : State → Option F.F32

abbrev fix_is_usable : Option FixType → Bool
fix_is_usable (some FixType.gps) = true
fix_is_usable (some FixType.dgps) = true
fix_is_usable (some FixType.pps) = true
fix_is_usable _ = false

abbrev has_position : Option SentenceType → Bool
has_position (some SentenceType.gga) = true
has_position (some SentenceType.rmc) = true
has_position _ = false

abbrev map_option : {A B : Type 0} → (A → B) → Option A → Option B
map_option f none = none
map_option f (some a) = some (f a)

module _ (F : Floats) (N : NmeaParser F) where
  open F use {F32, F64, f32, f64, widen}

  -- `Err`, or `Ok` of a fix, if the sentence completes one.
  pub data Sentence : Type 0 where
    malformed : Sentence
    parsed : Option (GpsFix F) → Sentence

  unfoldable pub position_fix : N.State → ℕ → Option F64 → Option F64 → Option (GpsFix F)
  position_fix s now (some lat) (some lon) = some (record {
    mono_ns = now;
    lat_deg = lat;
    lon_deg = lon;
    alt_m = widen (unwrap_or (N.altitude s) (nought f32));
    speed_mps = map_option (λ v. f64.mul (widen v) (f64.lit 514444 6)) (N.speed_over_ground s);
    course_deg = map_option (λ c. widen c) (N.true_course s);
    hdop = N.hdop s;
    sats = map_option (λ n. n % 256) (N.fix_satellites s);
  })
  position_fix s now _ _ = none

  unfoldable pub sentence_fix : N.State → ℕ → Option SentenceType → Sentence
  sentence_fix s now none = Sentence.malformed
  sentence_fix s now (some t) =
      if has_position (some t)
      then if fix_is_usable (N.fix_type s)
        then Sentence.parsed (position_fix s now (N.latitude s) (N.longitude s))
        else Sentence.parsed none
      else Sentence.parsed none

  unfoldable pub parse_sentence : N.State → List ℕ → ℕ → N.State × Sentence
  parse_sentence s line now = let r = N.parse s line in (r.0, sentence_fix r.0 now r.1)
