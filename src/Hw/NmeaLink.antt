-- ===== src/Hw/NmeaLink.antt =====
-- src/hw/nmea_link.rs: `LinkHealth`, which decides when to report on the serial link. Times are
-- nanoseconds since the port opened; `-` stops at 0, as `saturating_sub` does.
pub mod Reports
use flyingsquirrel.Base.{
  ℕ, ◌+◌, ◌-◌, Bool, true, false, not, List, [], ◌∷◌, Option, none, some, ltb, ◌==◌, if◌then◌else◌,
  unwrap_or, inc_u64,
}
use flyingsquirrel.Hw.NmeaCodec.{NmeaLine}

abbrev pub activity_window : ℕ
activity_window = 6000000000

abbrev pub quiet_link_grace : ℕ
quiet_link_grace = 10000000000

abbrev pub no_fix_grace : ℕ
no_fix_grace = 60000000000

abbrev pub repeat_interval : ℕ
repeat_interval = 60000000000

pub data LinkState : Type 0 where
  healthy no_bytes no_sentences no_fix fixes_rejected : LinkState

unfoldable pub grace : LinkState → ℕ
grace LinkState.healthy = 0
grace LinkState.no_fix = no_fix_grace
grace _ = quiet_link_grace

pub record LinkCounts : Type 0 where
  pub bytes : ℕ
  pub lines : ℕ
  pub nmea_lines : ℕ
  pub non_utf8_lines : ℕ
  pub overlong_discards : ℕ
  pub parse_errors : ℕ
  pub fixes : ℕ
  pub rejected_fixes : ℕ

pub record LinkDiagnosis : Type 0 where
  pub state : LinkState
  pub counts : LinkCounts
  pub silent_for : ℕ

unfoldable pub fixes_stopped : LinkDiagnosis → Bool
fixes_stopped d = ltb 0 d.counts.fixes

pub data LinkReport : Type 0 where
  trouble : LinkDiagnosis → LinkReport
  recovered : LinkState → LinkCounts → LinkReport

pub record LinkHealth : Type 0 where
  pub counts : LinkCounts
  pub last_byte_at : Option ℕ
  pub last_nmea_line_at : Option ℕ
  pub last_fix_at : Option ℕ
  pub rejected_since_fix : ℕ
  pub last_report_at : Option ℕ
  pub reported : Option LinkState

abbrev no_counts : LinkCounts
no_counts = record {
  bytes = 0;
  lines = 0;
  nmea_lines = 0;
  non_utf8_lines = 0;
  overlong_discards = 0;
  parse_errors = 0;
  fixes = 0;
  rejected_fixes = 0;
}

abbrev pub new : LinkHealth
new = record {
  counts = no_counts;
  last_byte_at = none;
  last_nmea_line_at = none;
  last_fix_at = none;
  rejected_since_fix = 0;
  last_report_at = none;
  reported = none;
}

unfoldable pub observe_bytes : LinkHealth → ℕ → ℕ → LinkHealth
observe_bytes h total now =
    if ltb h.counts.bytes total
    then record h { counts = record h.counts { bytes = total }; last_byte_at = some now }
    else h

abbrev starts_dollar : List ℕ → Bool
starts_dollar [] = false
starts_dollar (b ∷ _) = b == 36

-- The event's counts, before the byte's time is set.
count_event : LinkHealth → NmeaLine → ℕ → LinkHealth
count_event h (NmeaLine.line s) now =
    let lines = inc_u64 h.counts.lines in
    if starts_dollar s
    then record h {
      counts = record h.counts { lines = lines; nmea_lines = inc_u64 h.counts.nmea_lines };
      last_nmea_line_at = some now;
    }
    else record h { counts = record h.counts { lines = lines } }
count_event h (NmeaLine.non_utf8 n) now = record h {
  counts = record h.counts {
    lines = inc_u64 h.counts.lines;
    non_utf8_lines = inc_u64 h.counts.non_utf8_lines;
  };
}
count_event h (NmeaLine.overlong n) now = record h {
  counts = record h.counts { overlong_discards = inc_u64 h.counts.overlong_discards };
}

unfoldable pub on_event : LinkHealth → NmeaLine → ℕ → LinkHealth
unfolding count_event
on_event h evt now = record (count_event h evt now) { last_byte_at = some now }

unfoldable pub on_parse_error : LinkHealth → LinkHealth
on_parse_error h = record h {
  counts = record h.counts { parse_errors = inc_u64 h.counts.parse_errors };
}

unfoldable pub on_fix : LinkHealth → ℕ → LinkHealth
on_fix h now = record h {
  counts = record h.counts { fixes = inc_u64 h.counts.fixes };
  rejected_since_fix = 0;
  last_fix_at = some now;
}

unfoldable pub on_fix_rejected : LinkHealth → LinkHealth
on_fix_rejected h = record h {
  counts = record h.counts { rejected_fixes = inc_u64 h.counts.rejected_fixes };
  rejected_since_fix = inc_u64 h.rejected_since_fix;
}

abbrev recent : ℕ → Option ℕ → Bool
recent now none = false
recent now (some t) = ltb (now - t) activity_window

unfoldable pub classify : LinkHealth → ℕ → LinkState
classify h now =
    if recent now h.last_fix_at
    then LinkState.healthy
    else if not (recent now h.last_byte_at)
    then LinkState.no_bytes
    else if not (recent now h.last_nmea_line_at)
    then LinkState.no_sentences
    else if ltb 0 h.rejected_since_fix
    then LinkState.fixes_rejected
    else LinkState.no_fix

-- `self.reported.take().map(…)`.
unfoldable pub recover : LinkHealth → Option LinkState → LinkHealth × Option LinkReport
recover h none = (h, none)
recover h (some was) =
    (record h { reported = none; last_report_at = none }, some (LinkReport.recovered was h.counts))

abbrev too_soon : ℕ → Option ℕ → Bool
too_soon now none = false
too_soon now (some last) = ltb (now - last) repeat_interval

unfoldable pub speak : LinkHealth → ℕ → LinkState → LinkHealth × Option LinkReport
speak h now state =
    let silent_for = now - unwrap_or h.last_fix_at 0 in
    if too_soon now h.last_report_at then (h, none) else (
      record h { last_report_at = some now; reported = some state },
      some (
          LinkReport.trouble
            (record { state = state; counts = h.counts; silent_for = silent_for })),
    )

unfoldable pub complain : LinkHealth → ℕ → LinkState → LinkHealth × Option LinkReport
complain h now state =
    let rest = speak h now state in
    if ltb (now - unwrap_or h.last_fix_at 0) (grace state) then (h, none) else rest

unfoldable pub poll_as : LinkHealth → ℕ → LinkState → LinkHealth × Option LinkReport
poll_as h now LinkState.healthy = recover h h.reported
poll_as h now state = complain h now state

unfoldable pub poll : LinkHealth → ℕ → LinkHealth × Option LinkReport
poll h now = poll_as h now (classify h now)
