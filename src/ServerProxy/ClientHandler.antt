-- ===== src/ServerProxy/ClientHandler.antt =====
-- ServerProxyClientHandler.cpp, SessionManager.cpp and ClientKeyManager.cpp: what a new TCP client
-- starts, and the work of its thread.
use tcp_udp.Base.{ℕ, some, [], ◌∷◌}
use tcp_udp.Std.Text.{Bytes}
use tcp_udp.Common.Endpoint.{print}
use tcp_udp.Common.Buffer.{owned_buffer}
use tcp_udp.Sys.Exec.{Message, text, what, Exec, pure, ◌>>=◌, ◌>>◌, catch, zoom}
use tcp_udp.Sys.Loop.{Loop, finished, running}
use tcp_udp.Sys.World.{World, Os, log, info, error}
use tcp_udp.Tcp.Session.{Session, get_peer}
use tcp_udp.ServerProxy.UdpHandler
use tcp_udp.ServerProxy.UdpHandler.{UdpHandler, register_tcp_session, unregister_tcp_session}
use tcp_udp.ServerProxy.Forwarder.{Forwarder, Route, forward_tcp_to_udp}

-- The UDP handler, and the buffer of the forwarder, which all clients share.
pub record Proxy : Type 0 where
  pub udp_handler : UdpHandler
  pub tcp_buffer : Bytes

unfoldable pub create : World → Proxy
unfolding UdpHandler.create
create w = record { udp_handler = UdpHandler.create w; tcp_buffer = owned_buffer 2048 }

-- What the thread of a client captures.
pub record Task : Type 0 where
  pub session : Session
  pub client_key : Bytes

abbrev pub forwarder : Proxy → Forwarder
forwarder p = record { world = p.udp_handler.world; tcp_buffer = p.tcp_buffer }

abbrev pub on_handler : {A : Type 0} → Exec UdpHandler A → Exec Proxy A
on_handler = zoom (λ p. p.udp_handler) (λ h p. record p { udp_handler = h })

abbrev on_world : {A : Type 0} → Exec World A → Exec Proxy A
on_world =
    zoom (λ p. p.udp_handler.world)
      (λ w p. record p { udp_handler = record p.udp_handler { world = w } })

abbrev on_forwarder : {A : Type 0} → Exec Forwarder A → Exec Proxy A
on_forwarder = zoom forwarder (λ f p. record p {
  udp_handler = record p.udp_handler { world = f.world };
  tcp_buffer = f.tcp_buffer;
})

-- `generateClientKey`.
unfoldable pub generate_client_key : Session → Bytes
generate_client_key session = print (get_peer session)

log_client_connection : Bytes → Exec World (Unit {0})
unfolding log
log_client_connection client_key = log info (record {
  format = "ClientKeyManager: New TCP client connected: %s";
  args = text client_key ∷ [];
})

unfoldable pub handle_client : Session → Exec Proxy Task
unfolding log_client_connection register_tcp_session generate_client_key
handle_client client_session = do
  let client_key = generate_client_key client_session
  on_world (log_client_connection client_key)
  on_handler (register_tcp_session client_key (some client_session))
  pure (record { session = client_session; client_key = client_key })

cleanup : Bytes → Loop → Exec Proxy Loop
unfolding unregister_tcp_session log
cleanup client_key running = pure running
cleanup client_key finished = do
  on_handler (unregister_tcp_session client_key)
  on_world (
      log info
        (record { format = "SessionManager: Cleaned up client %s"; args = text client_key ∷ [] }))
  pure finished

report : Bytes → Message → Exec Proxy Loop
unfolding log
report client_key e = do
  on_world (
      log error (record {
        format = "SessionManager: Exception for client %s: %s";
        args = text client_key ∷ what e.format ∷ e.args;
      }))
  pure finished

-- The work of the task that `createSessionTask` makes, with at most `rounds` rounds of its loop.
unfoldable pub run_task : Os → Route → ℕ → Task → Exec Proxy Loop
unfolding cleanup report
run_task os route rounds task = do
  ended ←
      catch (on_forwarder (forward_tcp_to_udp os route rounds task.session task.client_key))
        (report task.client_key)
  cleanup task.client_key ended
