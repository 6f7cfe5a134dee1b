-- ===== src/ServerProxy/UdpHandler.antt =====
-- ServerProxyUdpHandler.h and ServerProxyUdpHandler.cpp.
use tcp_udp.Base.{zero, String, Option, none, some, List, [], ◌∷◌, take}
use tcp_udp.Base.Int.{ℤ, pos, negsuc}
use tcp_udp.Std.Text.{Bytes}
use tcp_udp.Std.Dict.{insert, erase}
use tcp_udp.Common.Endpoint.{Endpoint, print, any}
use tcp_udp.Common.Buffer.{owned_buffer, standard_timeout}
use tcp_udp.Sys.Exec.{Message, text, what, Exec, ok, pure, ◌>>=◌, ◌>>◌, catch, zoom}
use tcp_udp.Sys.World.{World, Os, log, info, error}
use tcp_udp.Io.{IoResult, IoResultCode, success}
use tcp_udp.Tcp.Session
use tcp_udp.Tcp.Session.{Session}
use tcp_udp.Udp.Client.{UdpClient, receive_from, minus_one, to_size}

-- The shared pointers of the map may be null. The buffer has 2048 bytes.
pub record UdpHandler : Type 0 where
  pub world : World
  pub tcp_sessions : List (Bytes × Option Session)
  pub buffer : Bytes

unfoldable pub create : World → UdpHandler
create w = record { world = w; tcp_sessions = []; buffer = owned_buffer 2048 }

abbrev on_world : {A : Type 0} → Exec World A → Exec UdpHandler A
on_world = zoom (λ h. h.world) (λ w h. record h { world = w })

abbrev set_buffer : Bytes → Exec UdpHandler (Unit {0})
set_buffer filled h = (ok tt, record h { buffer = filled })

abbrev client_message : String → Bytes → Message
client_message format client_key = record { format = format; args = text client_key ∷ [] }

abbrev pub received_message : Endpoint → Bytes → Message
received_message sender udp_data = record {
  format = "ServerProxyUdpHandler: Received UDP response from %s: '%s'";
  args = text (print sender) ∷ text udp_data ∷ [];
}

unfoldable pub register_tcp_session : Bytes → Option Session → Exec UdpHandler (Unit {0})
unfolding log
register_tcp_session client_key tcp_session h =
    on_world
      (log info
        (client_message "ServerProxyUdpHandler: Registered TCP session for client %s" client_key))
      (record h { tcp_sessions = insert client_key tcp_session h.tcp_sessions })

unfoldable pub unregister_tcp_session : Bytes → Exec UdpHandler (Unit {0})
unfolding log
unregister_tcp_session client_key h =
    on_world
      (log info
        (client_message "ServerProxyUdpHandler: Unregistered TCP session for client %s" client_key))
      (record h { tcp_sessions = erase client_key h.tcp_sessions })

log_forwarded : Bytes → IoResult → IoResultCode → Exec World (Unit {0})
unfolding log
log_forwarded client_key result success =
    log info
      (client_message "ServerProxyUdpHandler: Forwarded UDP response to TCP client %s" client_key)
log_forwarded client_key result _ = log error (record {
  format = "ServerProxyUdpHandler: Failed to forward to TCP client %s: %s";
  args = text client_key ∷ text result.error_message ∷ [];
})

module _ (os : Os) where
  unfoldable pub forward_one : Bytes → Bytes → Option Session → Exec World (Unit {0})
  unfolding Session.write log_forwarded
  forward_one udp_data client_key none = pure tt
  forward_one udp_data client_key (some s) = do
    result ← Session.write os s udp_data (some standard_timeout)
    log_forwarded client_key result result.code

  -- The loop over all registered sessions.
  unfoldable pub forward_all : Bytes → List (Bytes × Option Session) → Exec World (Unit {0})
  forward_all udp_data [] = pure tt
  forward_all udp_data ((client_key, s) ∷ rest) =
      forward_one udp_data client_key s >> forward_all udp_data rest

  forward_received : List (Bytes × Option Session) → ℤ → Bytes → Endpoint → Exec World ℤ
  unfolding log
  forward_received sessions (negsuc zero) filled sender = do
    log error (record { format = "ServerProxyUdpHandler: Failed to receive UDP data"; args = [] })
    pure minus_one
  forward_received sessions (pos zero) filled sender = pure (pos 0)
  forward_received sessions received filled sender = do
    log info (received_message sender (take (to_size received) filled))
    forward_all (take (to_size received) filled) sessions
    pure (pos 0)

  report : Message → Exec World ℤ
  unfolding log
  report e = do
    log error
        (record { format = "ServerProxyUdpHandler: Exception: %s"; args = what e.format ∷ e.args })
    pure minus_one

  attempt : UdpClient → Exec UdpHandler ℤ
  unfolding receive_from forward_received
  attempt udp_client h =
      (do
        (received, filled, sender) ← on_world (receive_from os udp_client h.buffer any)
        set_buffer filled
        on_world (forward_received h.tcp_sessions received filled sender))
        h

  unfoldable pub handle_udp_input : UdpClient → Exec UdpHandler ℤ
  unfolding attempt report
  handle_udp_input udp_client = catch (attempt udp_client) (λ e. on_world (report e))
