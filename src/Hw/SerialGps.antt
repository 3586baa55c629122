-- ===== src/Hw/SerialGps.antt =====
-- src/hw/serial_gps.rs: `connection_stream`, one event of its select at a time, and the backoff between
-- connections. The frames are the codec's events; times are nanoseconds since the port opened.
pub mod Stream
use flyingsquirrel.Base.{
  ℕ, ◌*◌, Bool, true, false, not, List, [], ◌∷◌, ◌++◌, Option, none, some, ltb, ◌==◌, if◌then◌else◌,
  min,
}
use flyingsquirrel.Base.Floats.{Floats}
use flyingsquirrel.Types.{GpsFix}
use flyingsquirrel.Mav.Ingest.{gps_fix_is_plausible}
use flyingsquirrel.Hw.NmeaCodec.{NmeaLine}
use flyingsquirrel.Hw.NmeaLink.{
  LinkHealth, new as health_new, on_event, on_fix, on_fix_rejected, on_parse_error, observe_bytes,
  poll,
}
use flyingsquirrel.Hw.NmeaSentence.{NmeaParser, Sentence, parse_sentence}

abbrev reconnect_backoff_initial : ℕ
reconnect_backoff_initial = 250000000

abbrev reconnect_backoff_max : ℕ
reconnect_backoff_max = 5000000000

-- The backoff behind an attempt to open the port, which succeeded or not.
unfoldable pub next_backoff : ℕ → Bool → ℕ
next_backoff backoff opened =
    min ((if opened then reconnect_backoff_initial else backoff) * 2) reconnect_backoff_max

abbrev starts_dollar : List ℕ → Bool
starts_dollar [] = false
starts_dollar (b ∷ _) = b == 36

module _ (F : Floats) (N : NmeaParser F) where
  pub record Connection : Type 0 where
    pub parser : N.State
    pub health : LinkHealth

  pub data SerialEvent : Type 0 where
    fix : GpsFix F → SerialEvent
    disconnected : Bool → SerialEvent

  abbrev pub opened : Connection
  opened = record { parser = N.initial; health = health_new }

  unfoldable pub on_sentence : Connection → ℕ → Sentence F N → Connection × List SerialEvent
  on_sentence c now Sentence.malformed = (record c { health = on_parse_error c.health }, [])
  on_sentence c now (Sentence.parsed none) = (c, [])
  on_sentence c now (Sentence.parsed (some f)) =
      if gps_fix_is_plausible F f
      then (record c { health = on_fix c.health now }, SerialEvent.fix f ∷ [])
      else (record c { health = on_fix_rejected c.health }, [])

  unfoldable pub on_text : Connection → List ℕ → ℕ → ℕ → Connection × List SerialEvent
  on_text c text now mono_ns =
      let r = parse_sentence F N c.parser text mono_ns in
      if starts_dollar text then on_sentence (record c { parser = r.0 }) now r.1 else (c, [])

  -- A frame, with the time since the port opened and the instant of the parse.
  unfoldable pub on_frame : Connection → NmeaLine → ℕ → ℕ → Connection × List SerialEvent
  on_frame c (NmeaLine.line text) now mono_ns =
      on_text (record c { health = on_event c.health (NmeaLine.line text) now }) text now mono_ns
  on_frame c (NmeaLine.non_utf8 n) now mono_ns =
      (record c { health = on_event c.health (NmeaLine.non_utf8 n) now }, [])
  on_frame c (NmeaLine.overlong n) now mono_ns =
      (record c { health = on_event c.health (NmeaLine.overlong n) now }, [])

  -- The probe's tick, with the bytes that the codec has seen.
  unfoldable pub on_probe : Connection → ℕ → ℕ → Connection
  on_probe c bytes_seen now = record c {
    health = (poll (observe_bytes c.health bytes_seen now) now).0;
  }

  -- What the select yields, until the stream ends or fails.
  pub data Selected : Type 0 where
    framed : NmeaLine → ℕ → ℕ → Selected
    probed : ℕ → ℕ → Selected

  -- The connection's events, given what is selected before the stream ends or a read fails.
  unfoldable pub connection_stream : Connection → List Selected → List SerialEvent
  connection_stream c [] = SerialEvent.disconnected (ltb 0 c.health.counts.fixes) ∷ []
  connection_stream c (Selected.framed evt now mono_ns ∷ xs) =
      let r = on_frame c evt now mono_ns in r.1 ++ connection_stream r.0 xs
  connection_stream c (Selected.probed bytes_seen now ∷ xs) =
      connection_stream (on_probe c bytes_seen now) xs
