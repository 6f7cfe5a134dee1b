-- ===== src/ClientProxy/Assembly.antt =====
-- TcpClientProxy.h and TcpClientProxy.cpp: the UDP server with the handler of the client proxy.
use tcp_udp.Base.{none, List, [], ◌∷◌}
use tcp_udp.Base.Int.{ℤ}
use tcp_udp.Std.Text.{Bytes}
use tcp_udp.Common.Endpoint.{Endpoint}
use tcp_udp.Sys.Exec.{Exec, ok, pure, ◌>>=◌, ◌>>◌, zoom}
use tcp_udp.Sys.World.{World, Os}
use tcp_udp.Udp.Server
use tcp_udp.Udp.Server.{ClientHandler, UdpServer}
use tcp_udp.ClientProxy.Binding
use tcp_udp.ClientProxy.Binding.{Binding}
use tcp_udp.ClientProxy.Handler
use tcp_udp.ClientProxy.Handler.{ClientProxy, handle_client, binding_input}

-- `ClientProxyUdpHandler` for the UDP server; it never starts a task.
abbrev pub client_handler : Os → ClientHandler ClientProxy (Unit {0})
client_handler os = record {
  world = λ p. p.manager.world;
  set_world = λ w p. record p { manager = record p.manager { world = w } };
  handle_client = λ socket. handle_client os socket >>= λ r. pure none;
  stop = λ task. pure tt;
}

-- The UDP server holds the handler, which the proxy owns.
pub record TcpClientProxy : Type 0 where
  pub local_endpoint : Endpoint
  pub tcp_server : Endpoint
  pub udp_server : UdpServer ClientProxy (Unit {0})

abbrev on_server : {A : Type 0} → Exec (UdpServer ClientProxy (Unit {0})) A → Exec TcpClientProxy A
on_server = zoom (λ p. p.udp_server) (λ u p. record p { udp_server = u })

abbrev on_handler : {A : Type 0} → Exec ClientProxy A → Exec TcpClientProxy A
on_handler =
    zoom (λ p. p.udp_server.handler)
      (λ h p. record p { udp_server = record p.udp_server { handler = h } })

abbrev on_world : {A : Type 0} → Exec World A → Exec ClientProxy A
on_world =
    zoom (λ p. p.manager.world) (λ w p. record p { manager = record p.manager { world = w } })

module _ (os : Os) where
  -- The members before the body of the constructor.
  abbrev pub initial : Endpoint → Endpoint → World → TcpClientProxy
  initial local_endpoint tcp_server w = record {
    local_endpoint = local_endpoint;
    tcp_server = tcp_server;
    udp_server = Server.initial os (client_handler os) local_endpoint (Handler.create tcp_server w);
  }

  unfoldable pub construct : Exec TcpClientProxy (Unit {0})
  unfolding Server.construct
  construct p = on_server (Server.construct os (client_handler os) p.local_endpoint) p

  -- The pointer to the server is set by the constructor.
  unfoldable pub start : Exec TcpClientProxy (Unit {0})
  unfolding Server.start
  start = on_server (Server.start os (client_handler os))

  unfoldable pub stop : Exec TcpClientProxy (Unit {0})
  unfolding Server.stop
  stop = on_server (Server.stop os (client_handler os))

  -- The reactor's calls of the server and of the binding under a key.
  unfoldable pub handle_input : Exec TcpClientProxy ℤ
  unfolding Server.handle_input
  handle_input = on_server (Server.handle_input os (client_handler os))

  unfoldable pub handle_response : Bytes → Exec TcpClientProxy ℤ
  unfolding binding_input
  handle_response key p = on_handler (binding_input os p.udp_server.socket key) p

  -- The standard fixes no order in which a map destroys what it holds; this is that of the list.
  unfoldable pub destroy_each : List (Bytes × Binding) → Exec World (Unit {0})
  unfolding Binding.destroy
  destroy_each [] = pure tt
  destroy_each ((key, b) ∷ rest) = Binding.destroy os b >> destroy_each rest

  -- The map of the manager goes with the handler.
  unfoldable pub destroy_bindings : Exec ClientProxy (Unit {0})
  unfolding destroy_each
  destroy_bindings p =
      (on_world (destroy_each p.manager.bindings)
          >> (λ q. (ok tt, record q { manager = record q.manager { bindings = [] } })))
        p

  -- The destructor, and those of the handler and of the server, in this order.
  unfoldable pub destroy : Exec TcpClientProxy (Unit {0})
  unfolding stop destroy_bindings Server.destroy
  destroy = do stop; on_handler destroy_bindings; on_server (Server.destroy os (client_handler os))
