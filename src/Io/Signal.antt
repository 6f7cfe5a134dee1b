-- ===== src/Io/Signal.antt =====
-- SignalRegistration.h and SignalRegistration.cpp.
use tcp_udp.Base.{ℕ, Bool, ◌&&◌, ◌==◌, if◌then◌else◌}
use tcp_udp.Base.Int.{ℤ, pos}
use tcp_udp.Sys.Exec.{Exec, pure, ◌>>=◌}
use tcp_udp.Sys.World.{World, Os, ask, register_sigint, remove_sigint, end_event_loop}

-- `reactor` says whether the pointer to the reactor is set.
pub record SignalRegistration : Type 0 where
  pub reactor : Bool

-- The number of SIGINT on Linux.
abbrev pub sigint : ℕ
sigint = 2

module _ (os : Os) where
  -- The constructor, for a reactor that may be null.
  unfoldable pub register_for_sigint : Bool → Exec World SignalRegistration
  unfolding ask
  register_for_sigint reactor =
      if reactor
      then (do r ← ask os register_sigint; pure (record { reactor = reactor }))
      else pure (record { reactor = reactor })

  -- The destructor.
  unfoldable pub unregister : SignalRegistration → Exec World (Unit {0})
  unfolding ask
  unregister s = if s.reactor then (do r ← ask os remove_sigint; pure tt) else pure tt

  unfoldable pub handle_signal : ℕ → SignalRegistration → Exec World ℤ
  unfolding ask
  handle_signal signum s =
      if signum == sigint && s.reactor
      then (do r ← ask os end_event_loop; pure (pos 0))
      else pure (pos 0)
