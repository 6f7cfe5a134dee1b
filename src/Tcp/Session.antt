-- ===== src/Tcp/Session.antt =====
-- include/libtcp/ITcpSession.h with its two implementations: AceTcpClientSession (a server's side of
-- a connection) and AceTcpServerSession (a client's side).
use tcp_udp.Base.{ℕ, Option, none, some, [], ◌∷◌, take, String}
use tcp_udp.Std.Text.{Bytes}
use tcp_udp.Common.Endpoint.{Endpoint, EndpointPair, print}
use tcp_udp.Sys.Exec.{Message, text, Exec, pure, ◌>>=◌, ◌>>◌}
use tcp_udp.Sys.World.{World, Os, ask, log, info, stream_close}
use tcp_udp.Io
use tcp_udp.Io.{IoResult, IoResultCode, success, connection_closed, timeout, error}

-- The class of a session.
pub data Side : Type 0 where
  client_session server_session : Side

-- `address` is `client_addr_` or `server_addr_`. No socket is `ACE_INVALID_HANDLE`.
pub record Session : Type 0 where
  pub side : Side
  pub endpoints : EndpointPair
  pub socket : Option ℕ
  pub address : Endpoint

-- `get_peer()`.
abbrev pub get_peer : Session → Endpoint
get_peer s = s.address

received_format : Side → String
received_format client_session = "TcpClientSession: %s <- %s received: '%s'"
received_format server_session = "TcpServerSession: %s <- %s received: '%s'"

sent_format : Side → String
sent_format client_session = "TcpClientSession: %s -> %s sent: '%s'"
sent_format server_session = "TcpServerSession: %s -> %s sent: '%s'"

transfer : String → Session → Bytes → Message
transfer format s bytes = record {
  format = format;
  args = text (print s.endpoints.local) ∷ text (print s.endpoints.remote) ∷ text bytes ∷ [];
}

-- A successful call is logged; its count is positive.
log_success : IoResultCode → Message → Exec World (Unit {0})
unfolding log
log_success success m = log info m
log_success connection_closed m = pure tt
log_success timeout m = pure tt
log_success error m = pure tt

module _ (os : Os) where
  unfoldable pub read : Session → Bytes → Option ℕ → Exec World (IoResult × Bytes)
  unfolding Io.read log_success transfer received_format
  read s buffer limit = do
    (result, filled) ← Io.read os s.socket buffer limit
    log_success result.code (transfer (received_format s.side) s (take result.count filled))
    pure (result, filled)

  unfoldable pub write : Session → Bytes → Option ℕ → Exec World IoResult
  unfolding Io.write log_success transfer sent_format
  write s buffer limit = do
    result ← Io.write os s.socket buffer limit
    log_success result.code (transfer (sent_format s.side) s (take result.count buffer))
    pure result

  close_socket : Side → Option ℕ → Exec World (Unit {0})
  unfolding ask
  close_socket server_session socket = do r ← ask os (stream_close socket); pure tt
  close_socket client_session none = pure tt
  close_socket client_session (some h) = do r ← ask os (stream_close (some h)); pure tt

  -- `ACE_SOCK_Stream::close` leaves the socket invalid.
  unfoldable pub close : Session → Exec World Session
  unfolding close_socket
  close s = do done ← close_socket s.side s.socket; pure (record s { socket = none })
