-- ===== src/ServerProxy/Forwarder.antt =====
-- UdpForwarder.h and UdpForwarder.cpp.
use tcp_udp.Base.{ltb, ℕ, some, [], ◌∷◌, take, Bool, true, false, if◌then◌else◌}
use tcp_udp.Std.Text.{Bytes}
use tcp_udp.Common.Endpoint.{Endpoint}
use tcp_udp.Common.Buffer.{owned_buffer, short_timeout}
use tcp_udp.Sys.Exec.{text, Exec, ok, pure, ◌>>=◌, ◌>>◌, zoom}
use tcp_udp.Sys.Loop.{Loop, while_not_cancelled}
use tcp_udp.Sys.World.{World, Os, log, info, error}
use tcp_udp.Io.{IoResult, IoResultCode, success, timeout}
use tcp_udp.Tcp.Session
use tcp_udp.Tcp.Session.{Session}
use tcp_udp.Udp.Client.{UdpClient, send_to}

-- One thread with the buffer, which has 2048 bytes.
pub record Forwarder : Type 0 where
  pub world : World
  pub tcp_buffer : Bytes

-- The members that do not change.
pub record Route : Type 0 where
  pub udp_proxy : Endpoint
  pub udp_client : UdpClient

unfoldable pub create : World → Forwarder
create w = record { world = w; tcp_buffer = owned_buffer 2048 }

abbrev on_world : {A : Type 0} → Exec World A → Exec Forwarder A
on_world = zoom (λ f. f.world) (λ w f. record f { world = w })

abbrev set_buffer : Bytes → Exec Forwarder (Unit {0})
set_buffer filled f = (ok tt, record f { tcp_buffer = filled })

log_sent : Bytes → Bool → Exec World (Unit {0})
unfolding log
log_sent client_key true = log info (record {
  format = "UdpForwarder: Forwarded TCP data from %s to UDP proxy";
  args = text client_key ∷ [];
})
log_sent client_key false = log error (record {
  format = "UdpForwarder: Failed to send to UDP proxy for %s";
  args = text client_key ∷ [];
})

log_disconnected : Bytes → Exec World (Unit {0})
unfolding log
log_disconnected client_key =
    log info
      (record { format = "UdpForwarder: Client %s disconnected"; args = text client_key ∷ [] })

module _ (os : Os) (route : Route) where
  -- The bytes are taken from the shared buffer, as many as the read counted.
  unfoldable pub forward_to_udp_proxy : IoResult → Bytes → Exec Forwarder (Unit {0})
  unfolding send_to log_sent
  forward_to_udp_proxy tcp_data client_key f =
      on_world
        (do
          sent ← send_to os route.udp_client route.udp_proxy (take tcp_data.count f.tcp_buffer)
          log_sent client_key sent)
        f

  unfoldable pub read_client : Session → Exec Forwarder IoResult
  unfolding Session.read
  read_client tcp_session f =
      (do
        (result, filled) ← on_world (Session.read os tcp_session f.tcp_buffer (some short_timeout))
        set_buffer filled
        pure result)
        f

  -- What a round does with the result of its read, and whether the loop goes on.
  unfoldable pub handle_result : Bytes → IoResult → IoResultCode → Exec Forwarder Bool
  unfolding forward_to_udp_proxy log_disconnected
  handle_result client_key result success =
      (if ltb 0 result.count then forward_to_udp_proxy result client_key else pure tt) >> pure true
  handle_result client_key result timeout = pure true
  handle_result client_key result _ = on_world (log_disconnected client_key) >> pure false

  unfoldable pub round : Session → Bytes → Exec Forwarder Bool
  unfolding read_client handle_result
  round tcp_session client_key = do
    result ← read_client tcp_session
    handle_result client_key result result.code

  -- At most `rounds` rounds of `while (!cancelled)`.
  unfoldable pub forward_tcp_to_udp : ℕ → Session → Bytes → Exec Forwarder Loop
  unfolding round
  forward_tcp_to_udp rounds tcp_session client_key =
      while_not_cancelled (λ f. os.cancelled f.world.time) (round tcp_session client_key) rounds
