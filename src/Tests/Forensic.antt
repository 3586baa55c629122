-- ===== src/Tests/Forensic.antt =====
-- Runs of src/forensic.rs.
use flyingsquirrel.Base.{◌+◌, ◌≤◌, ◌≡◌, refl, ◌↔◌, List, [], ◌∷◌, none, arith}
use flyingsquirrel.Base.Int.{pos}
use flyingsquirrel.Base.Fixed.{fin, fixed}
use flyingsquirrel.Types.{GpsFix}
use flyingsquirrel.Forensic.{ForensicBuffer, new, try_claim_dump}
use flyingsquirrel.Forensic.Rings.{Pushed, Kept, push_all, remember_all, push_all-new}
use flyingsquirrel.Forensic.Dumps.{Reach, Dumping, idle, detection, failed, Reach-once}

abbrev fix_high : GpsFix fixed
fix_high = record {
  mono_ns = 0;
  lat_deg = fin (pos 47000);
  lon_deg = fin (pos 8000);
  alt_m = fin (pos 400000);
  speed_mps = none;
  course_deg = none;
  hdop = none;
  sats = none;
}

-- Two fixes 40 s apart, in a window of 30 s.
abbrev far_apart : List (Pushed fixed)
far_apart = Pushed.gps (fin (pos 1000)) fix_high ∷ Pushed.gps (fin (pos 41000)) fix_high ∷ []

push_all-new_example :
    Kept fixed
      (fin (pos 30000))
      (remember_all fixed ([], [], []) far_apart)
      (push_all fixed (new fixed (fin (pos 30000)) (fin (pos 100000))) far_apart)
push_all-new_example = push_all-new fixed (fin (pos 30000)) (fin (pos 100000)) far_apart

abbrev empty : ForensicBuffer fixed
empty = new fixed (fin (pos 30000)) (fin (pos 100000))

-- A detection whose write failed, and a second one.
abbrev retried : Dumping fixed
retried = detection fixed (failed fixed (detection fixed (idle fixed empty)))

Reach-once_example :
    (retried.writing + retried.written ≤ 1)
    × (((detection fixed retried).writing ≡ retried.writing + 1)
        ↔ (retried.writing + retried.written ≡ 0))
unfolding new detection try_claim_dump
Reach-once_example = Reach-once fixed empty retried refl (
    Reach.detect (failed fixed (detection fixed (idle fixed empty))) (
      Reach.fail (detection fixed (idle fixed empty)) (omega arith)
        (Reach.detect (idle fixed empty) Reach.here)))
