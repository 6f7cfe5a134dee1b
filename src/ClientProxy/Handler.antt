-- ===== src/ClientProxy/Handler.antt =====
-- ClientProxyUdpHandler.h and ClientProxyUdpHandler.cpp, and what the reactor of TcpClientProxy
-- dispatches.
use tcp_udp.Base.{ℕ, Option, none, some, [], ◌∷◌, true}
use tcp_udp.Base.Int.{ℤ, pos}
use tcp_udp.Std.Text.{Bytes}
use tcp_udp.Std.Dict.{lookup, insert}
use tcp_udp.Common.Endpoint.{Endpoint, print, any}
use tcp_udp.Common.Buffer.{owned_buffer, standard_timeout}
use tcp_udp.Sys.Exec.{Message, text, what, Exec, ok, pure, throw, catch, zoom, ◌>>=◌}
use tcp_udp.Sys.World.{World, Os, log, info, error}
use tcp_udp.Io.{IoResult, IoResultCode, success, connection_closed, timeout}
use tcp_udp.Tcp.Session
use tcp_udp.ClientProxy.Binding
use tcp_udp.ClientProxy.Binding.{Binding}
use tcp_udp.ClientProxy.SessionHandler.{SessionHandler, read_udp_message}
use tcp_udp.ClientProxy.Manager
use tcp_udp.ClientProxy.Manager.{Manager, Factory, set_binding_factory, get_or_create_binding}

-- The binding manager with the buffer of the session handler.
pub record ClientProxy : Type 0 where
  pub manager : Manager
  pub buffer : Bytes

-- The constructor of the handler; the reactor that the proxy gives is not null.
unfoldable pub create : Endpoint → World → ClientProxy
unfolding Manager.create set_binding_factory
create tcp_server w = record {
  manager =
      set_binding_factory (record { tcp_server = tcp_server; reactor = true }) (Manager.create w);
  buffer = owned_buffer 2048;
}

abbrev pub session_handler : ClientProxy → SessionHandler
session_handler p = record { world = p.manager.world; buffer = p.buffer }

abbrev on_session_handler : {A : Type 0} → Exec SessionHandler A → Exec ClientProxy A
on_session_handler =
    zoom session_handler
      (λ h p. record p { manager = record p.manager { world = h.world }; buffer = h.buffer })

abbrev on_manager : {A : Type 0} → Exec Manager A → Exec ClientProxy A
on_manager = zoom (λ p. p.manager) (λ m p. record p { manager = m })

abbrev on_world : {A : Type 0} → Exec World A → Exec ClientProxy A
on_world =
    zoom (λ p. p.manager.world) (λ w p. record p { manager = record p.manager { world = w } })

after_send : IoResult → IoResultCode → Endpoint → Exec World (Unit {0})
unfolding log
after_send r success udp_sender = pure tt
after_send r connection_closed udp_sender = log info (record {
  format = "ClientProxyUdpHandler: %s write TCP ConnectionClosed";
  args = text (print udp_sender) ∷ [];
})
after_send r timeout udp_sender = pure tt
after_send r _ udp_sender = throw (record {
  format = "ClientProxyUdpHandler: %s failed to send to TCP server: %s";
  args = text (print udp_sender) ∷ text r.error_message ∷ [];
})

report : Message → Exec ClientProxy (Unit {0})
unfolding log
report e = on_world (
    log error
      (record { format = "ClientProxyUdpHandler: Exception: %s"; args = what e.format ∷ e.args }))

module _ (os : Os) (socket : Option ℕ) where
  unfoldable pub send_to_tcp_server : Binding → Bytes → Endpoint → Exec World (Unit {0})
  unfolding Session.write after_send
  send_to_tcp_server binding received udp_sender = do
    r ← Session.write os binding.tcp_session received (some standard_timeout)
    after_send r r.code udp_sender

  -- What the `try` holds, behind the read.
  unfoldable pub deliver : Bytes → Endpoint → Exec ClientProxy (Unit {0})
  deliver received udp_sender = do
    binding ← on_manager (get_or_create_binding os (print udp_sender) udp_sender)
    on_world (send_to_tcp_server binding received udp_sender)

  attempt : Exec ClientProxy (Unit {0})
  attempt = do
    (received, udp_sender) ← on_session_handler (read_udp_message os socket any)
    deliver received udp_sender

  -- The handler has no task to return.
  unfoldable pub handle_client : Exec ClientProxy (Unit {0})
  unfolding attempt report
  handle_client = catch attempt report

  store_binding : Bytes → ℤ → Binding → Exec ClientProxy ℤ
  store_binding source_key result b p = (
    ok result,
    record p { manager = record p.manager { bindings = insert source_key b p.manager.bindings } },
  )

  input_found : Bytes → Option Binding → Exec ClientProxy ℤ
  unfolding Binding.handle_input store_binding
  input_found source_key none = pure (pos 0)
  input_found source_key (some b) = do
    (result, b') ← on_world (Binding.handle_input os socket b)
    store_binding source_key result b'

  -- The reactor finds that the TCP connection of a binding can be read.
  unfoldable pub binding_input : Bytes → Exec ClientProxy ℤ
  unfolding input_found
  binding_input source_key p = input_found source_key (lookup source_key p.manager.bindings) p
