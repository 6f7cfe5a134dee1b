-- ===== src/ServerProxy/Assembly.antt =====
-- TcpServerProxy.h and TcpServerProxy.cpp: the TCP server with the handler of its clients, and the UDP
-- client on the same reactor.
use tcp_udp.Base.{Bool, true, false, Option, some, [], if◌then◌else◌}
use tcp_udp.Base.Int.{ℤ, pos, eqb_ℤ}
use tcp_udp.Common.Endpoint.{Endpoint, any_loop_back}
use tcp_udp.Sys.Exec.{Exec, ok, pure, ◌>>=◌, ◌>>◌, zoom}
use tcp_udp.Sys.World.{World, Os, Reply, ask, log, info, error, register_handler, remove_handler}
use tcp_udp.Sys.World
use tcp_udp.Tcp.Session.{Session}
use tcp_udp.Tcp.Acceptor.{ClientHandler}
use tcp_udp.Tcp.Server
use tcp_udp.Tcp.Server.{TcpServer}
use tcp_udp.Udp.Client
use tcp_udp.Udp.Client.{UdpClient}
use tcp_udp.ServerProxy.UdpHandler.{handle_udp_input}
use tcp_udp.ServerProxy.ClientHandler as Clients
use tcp_udp.ServerProxy.ClientHandler.{Proxy, Task, handle_client, run_task}
use tcp_udp.ServerProxy.Forwarder.{Route}

abbrev handle_started : Session → Exec Proxy (Option Task)
handle_started s = handle_client s >>= λ task. pure (some task)

-- A task whose flag is set.
abbrev told : Os → Os
told os = record os { cancelled = λ t. true }

-- `RunningTask::stop`, which sets the flag and joins the thread: what the thread does until it ends.
-- The rounds that it went through before are steps of their own, before the stop.
unfoldable pub stop_task : Os → Route → Task → Exec Proxy (Unit {0})
unfolding run_task
stop_task os route task = do ended ← run_task (told os) route 1 task; pure tt

-- `ServerProxyClientHandler` for the acceptor.
abbrev pub client_handler : Os → Route → ClientHandler Proxy Task
client_handler os route = record {
  world = λ p. p.udp_handler.world;
  set_world = λ w p. record p { udp_handler = record p.udp_handler { world = w } };
  handle_client = λ s p. handle_started s p;
  stop = λ task p. stop_task os route task p;
}

-- The members of the server are there from the start, for its handler is; `created` says whether the
-- pointer to it is set.
pub record TcpServerProxy : Type 0 where
  pub local_endpoint : Endpoint
  pub udp_proxy : Endpoint
  pub udp_client : UdpClient
  pub tcp_server : TcpServer Proxy Task
  pub created : Bool
  pub reactor_registered : Bool

-- What the handler of TCP clients forwards with.
abbrev pub route : TcpServerProxy → Route
route p = record { udp_proxy = p.udp_proxy; udp_client = p.udp_client }

abbrev handler : TcpServerProxy → Proxy
handler p = p.tcp_server.acceptor.handler

abbrev pub on_server : {A : Type 0} → Exec (TcpServer Proxy Task) A → Exec TcpServerProxy A
on_server = zoom (λ p. p.tcp_server) (λ s p. record p { tcp_server = s })

abbrev set_handler : Proxy → TcpServerProxy → TcpServerProxy
set_handler h p = record p {
  tcp_server = record p.tcp_server { acceptor = record p.tcp_server.acceptor { handler = h } };
}

abbrev pub on_world : {A : Type 0} → Exec World A → Exec TcpServerProxy A
on_world =
    zoom (λ p. (handler p).udp_handler.world)
      (λ w p.
        set_handler
          (record (handler p) { udp_handler = record (handler p).udp_handler { world = w } }) p)

abbrev update : (TcpServerProxy → TcpServerProxy) → Exec TcpServerProxy (Unit {0})
update f p = (ok tt, f p)

module _ (os : Os) where
  -- The constructor: the UDP client is on a port of the system's choice.
  unfoldable pub create : Endpoint → Endpoint → Exec World TcpServerProxy
  unfolding Client.create Clients.create
  create local_endpoint udp_proxy w =
      (do
        udp_client ← Client.create os any_loop_back
        (λ w'.
            pure
              (record {
                local_endpoint = local_endpoint;
                udp_proxy = udp_proxy;
                udp_client = udp_client;
                tcp_server = Server.initial (Clients.create w');
                created = false;
                reactor_registered = false;
              })
              w'))
        w

  registered : Reply → Exec TcpServerProxy (Unit {0})
  unfolding log
  registered r =
      if eqb_ℤ r.value (pos 0)
      then (update (λ p. record p { reactor_registered = true })
          >> on_world (
              log info (record {
                format = "TcpServerProxy: Registered UDP client socket with reactor";
                args = [];
              })))
      else on_world (
          log error (record {
            format = "TcpServerProxy: Failed to register UDP client socket with reactor";
            args = [];
          }))

  -- It is called once.
  unfoldable pub start : Exec TcpServerProxy (Unit {0})
  unfolding registered Server.construct Server.start ask
  start p =
      (do
        r ← on_world (ask os (register_handler World.udp_client))
        registered r
        on_server (Server.construct os (client_handler os (route p)) true p.local_endpoint)
        update (λ q. record q { created = true })
        on_server (Server.start os (client_handler os (route p))))
        p

  unfoldable pub withdraw_registered : Exec TcpServerProxy (Unit {0})
  unfolding ask
  withdraw_registered = do
    removed ← on_world (ask os (remove_handler World.udp_client))
    update (λ q. record q { reactor_registered = false })

  unfoldable pub withdraw : Exec TcpServerProxy (Unit {0})
  unfolding withdraw_registered
  withdraw p = (if p.reactor_registered then withdraw_registered else pure tt) p

  unfoldable pub stop_created : Exec TcpServerProxy (Unit {0})
  unfolding Server.stop
  stop_created p =
      (if p.created then on_server (Server.stop os (client_handler os (route p))) else pure tt) p

  unfoldable pub stop : Exec TcpServerProxy (Unit {0})
  unfolding withdraw stop_created
  stop = withdraw >> stop_created

  -- The reactor finds that the socket of the UDP client can be read.
  unfoldable pub handle_input : Exec TcpServerProxy ℤ
  unfolding handle_udp_input
  handle_input p =
      zoom (λ q. (handler q).udp_handler)
        (λ h q. set_handler (record (handler q) { udp_handler = h }) q)
        (handle_udp_input os p.udp_client) p
