-- ===== src/Udp/Session.antt =====
-- AceUdpClientSession.h and AceUdpClientSession.cpp: the socket of a UDP server.
use tcp_udp.Base.{ℕ, Option, [], ◌∷◌, take}
use tcp_udp.Std.Text.{Bytes}
use tcp_udp.Common.Endpoint.{Endpoint, print}
use tcp_udp.Sys.Exec.{text, Exec, pure, ◌>>=◌, ◌>>◌}
use tcp_udp.Sys.World.{World, Os, log, info}
use tcp_udp.Io
use tcp_udp.Io.{IoResult, IoResultCode, success, connection_closed, timeout, error}

-- A successful read fills in the sender and is logged; its count is positive.
note_sender : IoResultCode → Bytes → Endpoint → Endpoint → Exec World Endpoint
unfolding log
note_sender success received from sender = do
  log info (record {
    format = "UdpClientSession: <- %s received: '%s'";
    args = text (print from) ∷ text received ∷ [];
  })
  pure from
note_sender _ received from sender = pure sender

log_sent : IoResultCode → Bytes → Endpoint → Exec World (Unit {0})
unfolding log
log_sent success sent remote = log info (record {
  format = "UdpClientSession: -> %s sent: '%s'";
  args = text (print remote) ∷ text sent ∷ [];
})
log_sent _ sent remote = pure tt

module _ (os : Os) (server_socket : Option ℕ) where
  unfoldable pub read_from : Bytes → Endpoint → Option ℕ → Exec World (IoResult × Bytes × Endpoint)
  unfolding Io.read_from note_sender
  read_from buffer sender limit = do
    (result, filled, from) ← Io.read_from os server_socket buffer limit
    sender' ← note_sender result.code (take result.count filled) from sender
    pure (result, filled, sender')

  unfoldable pub write_to : Bytes → Endpoint → Option ℕ → Exec World IoResult
  unfolding Io.write_to log_sent
  write_to buffer remote limit = do
    result ← Io.write_to os server_socket buffer remote limit
    log_sent result.code (take result.count buffer) remote
    pure result
