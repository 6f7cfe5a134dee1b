-- ===== src/Examples/Servers.antt =====
-- The servers with the handlers of the proxies.
use tcp_udp.Base.{◌≡◌, refl, Bool, true, false, none, some, [], ◌∷◌, All, if◌then◌else◌}
use tcp_udp.Sys.Exec.{ok, ◌>>◌}
use tcp_udp.Sys.World.{
  Os, Reply, Call, end_event_loop, remove_handler, udp_server, dgram_close, remove_sigint, acceptor,
  acceptor_close, udp_client,
}
use tcp_udp.Sys.World
use tcp_udp.Sys.Trace.{observe}
use tcp_udp.Udp.Server.{UdpServer, stop, destroy}
use tcp_udp.Udp.Lifetime.{starts, stops, input, release, run, stop-stop}
use tcp_udp.Udp.Teardown.{run-destroy}
use tcp_udp.ClientProxy.Handler.{ClientProxy}
use tcp_udp.ClientProxy.Assembly as Back
use tcp_udp.ClientProxy.Quiet
use tcp_udp.ServerProxy.Assembly as Front
use tcp_udp.ServerProxy.Assembly.{TcpServerProxy}
use tcp_udp.ServerProxy.Stopping.{IsIdle, released, stop-IsIdle}
use tcp_udp.ServerProxy.Ended.{IsGone}
use tcp_udp.Std.Text.{Bytes, codes}
use tcp_udp.Examples.Scripted.{peer, server, scripted, lively, small_buffer, session}

abbrev back : UdpServer ClientProxy (Unit {0})
back = record {
  handler = record {
    manager = record { world = World.start; bindings = []; factory = none };
    buffer = small_buffer;
  };
  socket = some 4;
  signal_registration = record { reactor = true };
  local_endpoint = server;
  stopped = false;
  tasks = [];
  is_cancelled = false;
}

run-destroy_example :
    observe release
      (destroy (scripted lively) (Back.client_handler (scripted lively)) (
        run
          (scripted lively)
          (Back.client_handler (scripted lively))
          (starts ∷ input ∷ stops ∷ input ∷ stops ∷ [])
          back)).1.handler.manager.world.calls
    ≡ end_event_loop ∷ remove_handler udp_server ∷ dgram_close (some 4) ∷ remove_sigint ∷ []
run-destroy_example =
    run-destroy (scripted lively) (Back.client_handler (scripted lively))
      (Quiet.client_handler-IsQuiet (scripted lively)) (starts ∷ input ∷ stops ∷ input ∷ stops ∷ [])
      back refl refl

stop-stop_example :
    (stop (scripted lively) (Back.client_handler (scripted lively))
        >> stop (scripted lively) (Back.client_handler (scripted lively)))
      back
    ≡ stop (scripted lively) (Back.client_handler (scripted lively)) back
stop-stop_example =
    stop-stop (scripted lively) (Back.client_handler (scripted lively))
      (Quiet.client_handler-IsQuiet (scripted lively)) back

abbrev front : Bool → TcpServerProxy
front created = record {
  local_endpoint = server;
  udp_proxy = peer;
  udp_client = record { local_endpoint = peer; socket = some 5 };
  tcp_server = record {
    acceptor = record {
      handler = record {
        udp_handler = record { world = World.start; tcp_sessions = []; buffer = small_buffer };
        tcp_buffer = small_buffer;
      };
      socket = if created then some 3 else none;
      local_endpoint = server;
      tasks = [];
      is_cancelled = false;
    };
    signal_registration = record { reactor = true };
    local_endpoint = server;
  };
  created = created;
  reactor_registered = created;
}

-- A proxy with one client, whose task runs.
abbrev client_key : Bytes
client_key = codes "10.0.0.7:5000"

abbrev serving : TcpServerProxy
serving = record (front true) {
  tcp_server = record (front true).tcp_server {
    acceptor = record (front true).tcp_server.acceptor {
      handler = record (front true).tcp_server.acceptor.handler {
        udp_handler = record {
          world = World.start;
          tcp_sessions = (client_key, some (session 9)) ∷ [];
          buffer = small_buffer;
        };
      };
      tasks = record { session = session 9; client_key = client_key } ∷ [];
    };
  };
}

stop-IsIdle_example :
    let (result, q) = Front.stop (scripted lively) serving in
    (result ≡ ok tt)
    × (released q.tcp_server.acceptor.handler.udp_handler.world
        ≡ remove_handler udp_client
          ∷ remove_handler acceptor
          ∷ acceptor_close (some 3)
          ∷ end_event_loop
          ∷ [])
    × (q.reactor_registered ≡ false)
    × IsIdle q.tcp_server
    × All
        (IsGone q.tcp_server.acceptor.handler.udp_handler.tcp_sessions)
        (record { session = session 9; client_key = client_key } ∷ [])
stop-IsIdle_example = stop-IsIdle (scripted lively) serving (λ e. absurd cc) (tt, tt)
