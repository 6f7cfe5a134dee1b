-- ===== src/Args/PortCleanup.antt =====
-- PortCleanup.h and PortCleanup.cpp. What the user answers to the question is an argument.
use tcp_udp.Base.{
  ℕ, String, Bool, true, false, ◌||◌, not, Option, none, some, [], ◌∷◌, ◌++◌, if◌then◌else◌,
  bytes_eq,
}
use tcp_udp.Base.Int.{ℤ, pos, ltb_ℤ, eqb_ℤ}
use tcp_udp.Std.Text.{Bytes, codes}
use tcp_udp.Std.Decimal.{to_string}
use tcp_udp.Common.Endpoint.{Endpoint, from_string}
use tcp_udp.Sys.Exec.{int, Message, Exec, pure, ◌>>=◌, ◌>>◌}
use tcp_udp.Sys.World.{
  World, Os, Reply, LogLevel, ask, log, info, socket_open, socket_reuse, socket_bind, socket_close,
  shell,
}

abbrev force : Bool
force = true

abbrev port_message : String → ℕ → Message
port_message format port = record { format = format; args = int (pos port) ∷ [] }

unfoldable pub log_port_status : ℕ → Bool → Exec World (Unit {0})
unfolding log
log_port_status port in_use =
    if in_use
    then log LogLevel.error (port_message "Port %d is already in use" port)
    else log info (port_message "Port %d is available" port)

unfoldable pub kill_command : ℕ → Bytes
kill_command port = codes "lsof -ti:" ++ (to_string port ++ codes " | xargs kill -9")

unfoldable pub ask_user_for_confirmation : Bytes → Bool
ask_user_for_confirmation response = bytes_eq response (codes "y") || bytes_eq response (codes "Y")

module _ (os : Os) where
  killed : ℕ → Reply → Exec World Bool
  unfolding log
  killed port r =
      if eqb_ℤ r.value (pos 0)
      then (log info (port_message "Killed process on port %d" port) >> pure true)
      else (log LogLevel.error (port_message "Failed to kill process on port %d" port)
          >> pure false)

  unfoldable pub kill_process_on_port : ℕ → Exec World Bool
  unfolding ask killed kill_command
  kill_process_on_port port = do r ← ask os (shell (kill_command port)); killed port r

  try_bind : ℕ → ℤ → Exec World Bool
  unfolding ask log log_port_status
  try_bind port sock =
      if ltb_ℤ sock (pos 0)
      then (log LogLevel.error
            (record { format = "Failed to create socket for port check"; args = [] })
          >> pure false)
      else (do
        reused ← ask os (socket_reuse sock)
        bound ← ask os (socket_bind sock port)
        closed ← ask os (socket_close sock)
        log_port_status port (not (eqb_ℤ bound.value (pos 0)))
        pure (not (eqb_ℤ bound.value (pos 0))))

  unfoldable pub is_port_in_use : ℕ → Exec World Bool
  unfolding ask try_bind
  is_port_in_use port = do r ← ask os socket_open; try_bind port r.value

  unfoldable pub clean_up : Bytes → ℕ → Bool → Exec World Bool
  unfolding log_port_status kill_process_on_port ask_user_for_confirmation log
  clean_up response port in_use = if not in_use then pure true else (do
    log_port_status port true
    (if force
        then kill_process_on_port port
        else if ask_user_for_confirmation response
        then kill_process_on_port port
        else (log LogLevel.error (record { format = "Port cleanup cancelled by user"; args = [] })
            >> pure false)))

  check_endpoint : Bytes → Option Endpoint → Exec World (Option Bool)
  unfolding is_port_in_use clean_up
  check_endpoint response none = pure none
  check_endpoint response (some ep) = do
    in_use ← is_port_in_use ep.port
    done ← clean_up response ep.port in_use
    pure (some done)

  -- `none` is an exception of `std::stoi`.
  unfoldable pub check_and_cleanup_port : Bytes → Bytes → Exec World (Option Bool)
  unfolding check_endpoint
  check_and_cleanup_port response endpoint = check_endpoint response (from_string endpoint)
