-- ===== src/Forensic/Dumps.antt =====
-- src/forensic.rs and src/fusion.rs: the claim on the one dump of a process, under every interleaving of
-- detections and of the tasks that write.
use flyingsquirrel.Base.{ℕ, ◌+◌, ◌-◌, ◌≤◌, ◌<◌, ◌≡◌, ◌↔◌, false, arith, if◌then◌else◌}
use flyingsquirrel.Base.Floats.{Floats}
use flyingsquirrel.Forensic.{ForensicBuffer, try_claim_dump, release_dump_claim}

module _ (F : Floats) where
  -- The buffer, how many tasks are writing, and how many dumps stand on the disk.
  pub record Dumping : Type 0 where
    pub buffer : ForensicBuffer F
    pub writing : ℕ
    pub written : ℕ

  -- A detection: the winner of the claim spawns a task.
  unfoldable pub detection : Dumping → Dumping
  detection d =
      let claim = try_claim_dump F d.buffer in
      record d { buffer = claim.0; writing = if claim.1 then d.writing + 1 else d.writing }

  -- A task ends: its dump is written, or the write failed and the claim is released.
  unfoldable pub finished : Dumping → Dumping
  finished d = record d { writing = d.writing - 1; written = d.written + 1 }

  unfoldable pub failed : Dumping → Dumping
  failed d = record d { buffer = release_dump_claim F d.buffer; writing = d.writing - 1 }

  pub data Reach (start : Dumping) : Dumping → Type 0 where
    here : Reach start start
    detect : (d : Dumping) → Reach start d → Reach start (detection d)
    finish : (d : Dumping) → 0 < d.writing → Reach start d → Reach start (finished d)
    fail : (d : Dumping) → 0 < d.writing → Reach start d → Reach start (failed d)

  abbrev pub idle : ForensicBuffer F → Dumping
  idle b = record { buffer = b; writing = 0; written = 0 }

  -- The flag is set exactly while one task writes or one dump stands.
  abbrev Counted : Dumping → Type 0
  Counted d = d.writing + d.written ≡ (if d.buffer.dump_fired then 1 else 0)

  Reach-Counted :
      (b : ForensicBuffer F) (d : Dumping) → b.dump_fired ≡ false → Reach (idle b) d → Counted d
  unfolding detection finished failed try_claim_dump release_dump_claim
  Reach-Counted b _ e Reach.here = ground (arith, e)
  Reach-Counted b _ e (Reach.detect d r) = ground (arith, Reach-Counted b d e r)
  Reach-Counted b _ e (Reach.finish d lt r) = ground (arith, Reach-Counted b d e r, lt)
  Reach-Counted b _ e (Reach.fail d lt r) = ground (arith, Reach-Counted b d e r, lt)

  -- From a buffer that has not dumped, however detections and the ends of the tasks interleave: at most
  -- one task writes or one dump is written, never both, and a further detection starts a task exactly if
  -- there is neither, as after a failed write.
  pub Reach-once :
      (b : ForensicBuffer F) (d : Dumping)
      → b.dump_fired ≡ false
      → Reach (idle b) d
      → (d.writing + d.written ≤ 1)
        × (((detection d).writing ≡ d.writing + 1) ↔ (d.writing + d.written ≡ 0))
  unfolding detection try_claim_dump
  Reach-once b d e r = let count = Reach-Counted b d e r in ground (arith, count)
