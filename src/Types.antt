-- ===== src/Types.antt =====
-- src/types.rs: the values that the ingest, navigation and detection code exchange. A time stamp
-- is the monotonic clock's nanoseconds since boot; the UTC field, which only logs read, is left out.
use flyingsquirrel.Base.{ℕ, Bool, true, false, Option}
use flyingsquirrel.Base.Floats.{Floats}

pub data NavStateKind : Type 0 where
  normal suspicious spoofed : NavStateKind

abbrev pub is_normal : NavStateKind → Bool
is_normal normal = true
is_normal _ = false

abbrev pub is_suspicious : NavStateKind → Bool
is_suspicious suspicious = true
is_suspicious _ = false

abbrev pub is_spoofed : NavStateKind → Bool
is_spoofed spoofed = true
is_spoofed _ = false

pub data SpoofKind : Type 0 where
  jump drift state_transition sync_warning : SpoofKind
  action_failed action_acked action_unconfirmed : SpoofKind
  link_down link_restored pilot_mode_change : SpoofKind
  boot_anchor_rejected preflight_failed preflight_passed : SpoofKind
  dwell_pause_exceeded frozen_gps : SpoofKind
  forensic_dump_written forensic_dump_failed forensic_dump_suppressed : SpoofKind

module _ (F : Floats) where
  open F use {F32, F64, f64}

  pub record GpsFix : Type 0 where
    pub mono_ns : ℕ
    pub lat_deg : F64
    pub lon_deg : F64
    pub alt_m : F64
    pub speed_mps : Option F64
    pub course_deg : Option F64
    pub hdop : Option F32
    pub sats : Option ℕ

  pub record NedPos : Type 0 where
    pub n : F64
    pub e : F64
    pub d : F64

  pub record NedVel : Type 0 where
    pub n : F64
    pub e : F64
    pub d : F64

  -- `NedPos::horizontal_norm` and `NedVel::horizontal_norm`.
  unfoldable pub horizontal_norm : F64 → F64 → F64
  horizontal_norm n e = f64.sqrt (f64.add (f64.mul n n) (f64.mul e e))

  -- One record of the event stream, without its UTC time and its JSON detail.
  pub record SpoofingEvent : Type 0 where
    pub mono_ns : ℕ
    pub kind : SpoofKind
    pub state : NavStateKind
    pub residual_m : F32
