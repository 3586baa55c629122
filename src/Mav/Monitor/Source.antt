-- ===== src/Mav/Monitor/Source.antt =====
-- src/mav/monitor.rs: the lock on the autopilot's address.
use flyingsquirrel.Base.{ℕ, ◌≡◌, refl, ◌↔◌, true, List, [], ◌∷◌, Option, none, some, arith}
use flyingsquirrel.Base.Floats.{Floats}
use flyingsquirrel.Mav.Monitor.{MavMonitor, SocketAddr, check_or_lock_source}

module _ (F : Floats) where
  -- The packets' sources in order, each with the port expected of it.
  abbrev pub check_all : MavMonitor F → List (SocketAddr × Option ℕ) → MavMonitor F
  check_all m [] = m
  check_all m ((src, port) ∷ xs) = check_all (check_or_lock_source F m src port).0 xs

  locked_step :
      (m : MavMonitor F) (a src : SocketAddr) (port : Option ℕ)
      → m.locked_source ≡ some a
      → (check_or_lock_source F m src port).0 ≡ m
  unfolding check_or_lock_source
  locked_step m a src port e = ground arith

  check_all-locked :
      (m : MavMonitor F) (a : SocketAddr) (xs : List (SocketAddr × Option ℕ))
      → m.locked_source ≡ some a
      → check_all m xs ≡ m
  check_all-locked m a [] e = refl
  check_all-locked m a ((src, port) ∷ xs) e =
      rw (locked_step m a src port e) (check_all-locked m a xs e)

  -- The first source to lock keeps the lock: once `a` is locked, no further packets change the
  -- monitor, and behind any of them a packet is accepted exactly if it comes from `a`, whatever port is
  -- then expected.
  pub lock_holds :
      (m : MavMonitor F) (a src : SocketAddr) (xs : List (SocketAddr × Option ℕ)) (port : Option ℕ)
      → m.locked_source ≡ some a
      → (check_all m xs ≡ m)
        × (((check_or_lock_source F (check_all m xs) src port).1 ≡ true) ↔ (a ≡ src))
  unfolding check_or_lock_source
  lock_holds m a src xs port e =
      let same = check_all-locked m a xs e in (same, ground (arith, same))

  -- While nothing is locked and a port is expected, a packet is accepted exactly if it comes from that
  -- port and its source then holds the lock.
  pub wrong_port_refused :
      (m : MavMonitor F) (src : SocketAddr) (want : ℕ)
      → m.locked_source ≡ none
      → ((check_or_lock_source F m src (some want)).1 ≡ true) ↔ (
          (src.port ≡ want)
          × ((check_or_lock_source F m src (some want)).0.locked_source ≡ some src))
  unfolding check_or_lock_source
  wrong_port_refused m src want e = ground arith
