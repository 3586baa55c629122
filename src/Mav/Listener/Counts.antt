-- ===== src/Mav/Listener/Counts.antt =====
-- src/mav/mod.rs: `MavStats`. Each datagram that `spawn_listener` receives is counted as one drop or is
-- sent on.
use flyingsquirrel.Base.{
  ℕ, ◌+◌, ◌%◌, ◌^◌, ◌≡◌, refl, Bool, true, false, ◌⊎◌, inl, inr, List, [], ◌∷◌, ◌++◌, Option, none,
  some, arith,
}
use flyingsquirrel.Base.Floats.{Floats}
use flyingsquirrel.Base.Lists.{length, length-append}
use flyingsquirrel.Types.{GpsFix}
use flyingsquirrel.Nav.Reckoner.{ImuSample}
use flyingsquirrel.Mav.Ingest.{
  MavlinkVersion, MavMessage, mavlink_version_of, gps_from_msg, imu_from_msg,
}
use flyingsquirrel.Mav.Monitor.{check_or_lock_source}
use flyingsquirrel.Mav.Listener.{
  MavFilter, MavStats, Input, turn, listen, Datagram, Forward, Listener, expected_port, on_datagram,
  on_message, observe, Delivery, deliver, resume, on_locked, dispatch, dispatch_imu, forward_gps,
  forward_imu, fetch_inc, magic,
}

module _ (F : Floats) where
  -- The datagrams dropped, for whatever reason.
  abbrev pub dropped : MavStats → ℕ
  dropped s =
      s.dropped_source_ip + s.dropped_sysid + s.dropped_nonfinite + s.dropped_source_locked
      + s.parse_errors

  abbrev pub sent : Option (Forward F) → ℕ
  sent none = 0
  sent (some _) = 1

  -- Modulo the counters' 2^64, one more is dropped or sent.
  abbrev Counted : MavStats → Listener F × Option (Forward F) → Type 0
  Counted s (l, o) =
      ((dropped l.stats + sent o) % 2 ^ 64 ≡ (dropped s + 1) % 2 ^ 64)
      × (l.stats.recv_total ≡ s.recv_total)

  dispatch_imu-Counted :
      (l : Listener F) (msg : MavMessage F) (arrival : ℕ) (o : Option (ImuSample F))
      → Counted l.stats (dispatch_imu F l msg arrival o)
  unfolding dispatch_imu forward_imu
  dispatch_imu-Counted l msg arrival none = ground arith
  dispatch_imu-Counted l msg arrival (some s) = ground arith

  dispatch-Counted :
      (l : Listener F) (msg : MavMessage F) (arrival : ℕ) (o : Option (GpsFix F))
      → Counted l.stats (dispatch F l msg arrival o)
  unfolding dispatch forward_gps
  dispatch-Counted l msg arrival none =
      dispatch_imu-Counted l msg arrival (imu_from_msg F arrival msg)
  dispatch-Counted l msg arrival (some f) = ground arith

  -- Every message handed to a channel was taken or lost, but perhaps the last one, refused.
  abbrev pub BreaksLast : List (Delivery F) → Type 0
  BreaksLast [] = Unit
  BreaksLast (Delivery.taken _ ∷ ds) = BreaksLast ds
  BreaksLast (Delivery.lost _ ∷ ds) = BreaksLast ds
  BreaksLast (Delivery.refused _ ∷ ds) = ds ≡ []

  abbrev Passed : List (Delivery F) → Type 0
  Passed [] = Unit
  Passed (Delivery.taken _ ∷ ds) = Passed ds
  Passed (Delivery.lost _ ∷ ds) = Passed ds
  Passed (Delivery.refused _ ∷ ds) = ⊥

  Passed-append : (ds es : List (Delivery F)) → Passed ds → BreaksLast es → BreaksLast (ds ++ es)
  Passed-append [] es p b = b
  Passed-append (Delivery.taken _ ∷ ds) es p b = Passed-append ds es p b
  Passed-append (Delivery.lost _ ∷ ds) es p b = Passed-append ds es p b
  Passed-append (Delivery.refused _ ∷ ds) es p b = absurd p

  -- What one turn hands on: all of it passed, where the loop goes on.
  abbrev Handed : ℕ → List (Delivery F) × Bool → Type 0
  Handed n (ds, on) = (length ds ≡ n) × BreaksLast ds × ((on ≡ false) ⊎ Passed ds)

  deliver-Handed :
      (gps_open imu_open other_free : Bool) (o : Option (Forward F))
      → Handed (sent o) (deliver F gps_open imu_open other_free o)
  unfolding deliver
  deliver-Handed g i f none = (refl, tt, inr tt)
  deliver-Handed true i f (some (Forward.to_gps fix)) = (refl, tt, inr tt)
  deliver-Handed false i f (some (Forward.to_gps fix)) = (refl, refl, inl refl)
  deliver-Handed g true f (some (Forward.to_imu sample)) = (refl, tt, inr tt)
  deliver-Handed g false f (some (Forward.to_imu sample)) = (refl, refl, inl refl)
  deliver-Handed g i true (some (Forward.to_other msg)) = (refl, tt, inr tt)
  deliver-Handed g i false (some (Forward.to_other msg)) = (refl, tt, inr tt)

  module _ (filter : MavFilter) (remote_port : ℕ) where
    on_message-Counted :
        (l : Listener F) (d : Datagram) (parsed : Option (ℕ × MavMessage F))
        → Counted l.stats (on_message F filter remote_port l d parsed)
    unfolding on_message on_locked
    on_message-Counted l d none = ground arith
    on_message-Counted l d (some (id, msg)) =
        let lock = check_or_lock_source F l.monitor d.src (expected_port filter remote_port) in
        let seen = record l { monitor = observe F lock.0 d.now msg } in
        let core = dispatch-Counted seen msg d.arrival (gps_from_msg F d.arrival msg) in
        ground (arith, core)

    module _ (read_versioned_msg : MavlinkVersion → List ℕ → Option (ℕ × MavMessage F)) where
      abbrev pub Balanced : MavStats → ℕ → Type 0
      Balanced s n = (dropped s + n) % 2 ^ 64 ≡ s.recv_total % 2 ^ 64

      on_datagram-Balanced :
          (l : Listener F) (d : Datagram) (n : ℕ)
          → Balanced l.stats n
          → let r = on_datagram F filter remote_port read_versioned_msg l d in
            Balanced r.0.stats (n + sent r.1)
      unfolding on_datagram
      on_datagram-Balanced l d n h =
          let arrived = record l {
            stats = record l.stats { recv_total = fetch_inc l.stats.recv_total };
          } in
          let parsed = read_versioned_msg (mavlink_version_of (magic d.bytes)) d.bytes in
          let core = on_message-Counted arrived d parsed in ground (arith, core)

      turn-Balanced :
          (l : Listener F) (i : Input) (n : ℕ)
          → Balanced l.stats n
          → let r = turn F filter remote_port read_versioned_msg l i in
            Balanced r.0.stats (n + length r.1.0) × Handed (length r.1.0) r.1
      unfolding turn
      turn-Balanced l (Input.recv_error on) n h = (ground (arith, h), (refl, tt, inr tt))
      turn-Balanced l (Input.received d gps imu other) n h =
          let core = on_datagram-Balanced l d n h in
          let r = on_datagram F filter remote_port read_versioned_msg l d in
          let (len, ends, on) = deliver-Handed gps imu other r.1 in
          (ground (arith, core, len), (refl, ends, on))

      Tallied : ℕ → Listener F × List (Delivery F) → Type 0
      Tallied n r = Balanced r.0.stats (n + length r.1) × BreaksLast r.1

      resume-Tallied :
          (l : Listener F) (handed : List (Delivery F) × Bool)
          (rest : Listener F × List (Delivery F)) (n : ℕ)
          → Balanced l.stats (n + length handed.0)
          → Handed (length handed.0) handed
          → Tallied (n + length handed.0) rest
          → Tallied n (resume F rest l handed)
      unfolding resume Tallied
      resume-Tallied l (ds, false) rest n b (len, ends, on) t = (b, ends)
      resume-Tallied l (ds, true) rest n b (len, ends, inl off) t = ground arith
      resume-Tallied l (ds, true) rest n b (len, ends, inr on) (tb, te) =
          (ground (arith, tb, length-append ds rest.1), Passed-append ds rest.1 on te)

      -- Starting from counters that agree, with `n` messages handed to channels so far: after any run of
      -- the loop the datagrams received are, modulo 2^64, those dropped and counted as such and those
      -- handed to a channel, one each. Of the latter all were taken, or lost on the diagnostic channel
      -- without a count, but perhaps the last one, which a closed channel refused.
      pub listen-Balanced :
          (l : Listener F) (is : List Input) (n : ℕ)
          → Balanced l.stats n
          → let r = listen F filter remote_port read_versioned_msg l is in
            Balanced r.0.stats (n + length r.1) × BreaksLast r.1
      unfolding listen Tallied
      listen-Balanced l [] n h = (ground (arith, h), tt)
      listen-Balanced l (i ∷ is) n h =
          let r = turn F filter remote_port read_versioned_msg l i in
          let rest = listen F filter remote_port read_versioned_msg r.0 is in
          let (b, handed) = turn-Balanced l i n h in
          resume-Tallied r.0 r.1 rest n b handed (listen-Balanced r.0 is (n + length r.1.0) b)
