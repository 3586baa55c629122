-- ===== src/Forensic/Rings.antt =====
-- src/forensic.rs: what `ForensicBuffer` keeps of each of its three streams.
use flyingsquirrel.Base.{◌≡◌, refl, List, [], ◌∷◌, ◌++◌}
use flyingsquirrel.Base.Floats.{Floats}
use flyingsquirrel.Types.{GpsFix, NavStateKind}
use flyingsquirrel.Nav.Reckoner.{ImuSample}
use flyingsquirrel.Detect.Residual.{Residual}
use flyingsquirrel.Forensic.{
  ForensicBuffer, GpsFixRecord, ImuSampleRecord, ResidualRecord, fix_record, sample_record,
  residual_record, new, push_gps, push_imu, push_residual,
}
use flyingsquirrel.Forensic.Trims.{Ring, Ring-empty, push-Ring}

module _ (F : Floats) where
  open F use {F64, f64}

  -- What the task hands to the buffer, with the time of each.
  pub data Pushed : Type 0 where
    gps : F64 → GpsFix F → Pushed
    imu : F64 → ImuSample F → Pushed
    residual : F64 → Residual F → NavStateKind → Pushed

  abbrev pub push_one : ForensicBuffer F → Pushed → ForensicBuffer F
  push_one b (Pushed.gps t fix) = push_gps F b t fix
  push_one b (Pushed.imu t sample) = push_imu F b t sample
  push_one b (Pushed.residual t r state) = push_residual F b t r state

  unfoldable pub push_all : ForensicBuffer F → List Pushed → ForensicBuffer F
  push_all b [] = b
  push_all b (p ∷ ps) = push_all (push_one b p) ps

  -- All records of each stream, however old.
  abbrev pub History : Type 0
  History = List (GpsFixRecord F) × List (ImuSampleRecord F) × List (ResidualRecord F)

  abbrev pub remember : History → Pushed → History
  remember (gs, is, rs) (Pushed.gps t fix) = (gs ++ (fix_record F t fix ∷ []), is, rs)
  remember (gs, is, rs) (Pushed.imu t sample) = (gs, is ++ (sample_record F t sample ∷ []), rs)
  remember (gs, is, rs) (Pushed.residual t r state) =
      (gs, is, rs ++ (residual_record F t r state ∷ []))

  unfoldable pub remember_all : History → List Pushed → History
  remember_all h [] = h
  remember_all h (p ∷ ps) = remember_all (remember h p) ps

  -- The three rings, of one window.
  abbrev pub Kept : F64 → History → ForensicBuffer F → Type 0
  Kept window (gs, is, rs) b =
      (b.window_s ≡ window)
      × Ring F (λ x. x.t_secs) b.window_s b.max_gps gs b.gps
      × Ring F (λ x. x.t_secs) b.window_s b.max_imu is b.imu
      × Ring F (λ x. x.t_secs) b.window_s b.max_residuals rs b.residuals

  push_one-Kept :
      (window : F64) (h : History) (b : ForensicBuffer F) (p : Pushed)
      → Kept window h b
      → Kept window (remember h p) (push_one b p)
  unfolding push_gps push_imu push_residual fix_record sample_record residual_record
  push_one-Kept window (gs, is, rs) b (Pushed.gps t fix) (w, g, i, r) =
      (w, push-Ring F (λ x. x.t_secs) b.window_s b.max_gps gs b.gps (fix_record F t fix) g, i, r)
  push_one-Kept window (gs, is, rs) b (Pushed.imu t s) (w, g, i, r) =
      (w, g, push-Ring F (λ x. x.t_secs) b.window_s b.max_imu is b.imu (sample_record F t s) i, r)
  push_one-Kept window (gs, is, rs) b (Pushed.residual t v state) (w, g, i, r) = (
    w,
    g,
    i,
    push-Ring F (λ x. x.t_secs) b.window_s b.max_residuals rs b.residuals
        (residual_record F t v state) r,
  )

  push_all-Kept :
      (window : F64) (h : History) (b : ForensicBuffer F) (ps : List Pushed)
      → Kept window h b
      → Kept window (remember_all h ps) (push_all b ps)
  unfolding push_all remember_all
  push_all-Kept window h b [] k = k
  push_all-Kept window h b (p ∷ ps) k =
      push_all-Kept window (remember h p) (push_one b p) ps (push_one-Kept window h b p k)

  -- After any pushes into a new buffer, in any order and with any times, each of the three rings is what
  -- its stream's records leave: every push appends its record, drops the records at the front that are
  -- older than its time less the given window, up to the first that is not, and then the oldest ones
  -- over the ring's capacity, and no others. So each ring holds the latest records of its stream
  -- without a gap and in order, and never more than its capacity.
  pub push_all-new :
      (window_s max_imu_rate_hz : F64) (ps : List Pushed)
      → Kept window_s (remember_all ([], [], []) ps) (push_all (new F window_s max_imu_rate_hz) ps)
  unfolding new
  push_all-new window rate ps =
      let b = new F window rate in
      push_all-Kept window ([], [], []) b ps
        (
          refl,
          Ring-empty F (λ x. x.t_secs) window b.max_gps,
          Ring-empty F (λ x. x.t_secs) window b.max_imu,
          Ring-empty F (λ x. x.t_secs) window b.max_residuals,
        )
