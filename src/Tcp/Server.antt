-- ===== src/Tcp/Server.antt =====
-- AceTcpServer.h and AceTcpServer.cpp: the acceptor with the reactor's loop and the signal handler.
-- What ACE prints on errors is left out.
use tcp_udp.Base.{Bool, true, false, none, [], ◌∷◌, String, not, if◌then◌else◌}
use tcp_udp.Base.Int.{ℤ, pos, eqb_ℤ}
use tcp_udp.Common.Endpoint.{Endpoint, any, print}
use tcp_udp.Sys.Exec.{text, Exec, ok, pure, throw, ◌>>=◌, ◌>>◌, zoom}
use tcp_udp.Sys.World.{World, Os, ask, log, info, run_event_loop}
use tcp_udp.Io.Signal.{SignalRegistration, register_for_sigint, unregister}
use tcp_udp.Tcp.Acceptor.{ClientHandler, Acceptor, open_acceptor, stop_server}

pub record TcpServer (H T : Type 0) : Type 0 where
  pub acceptor : Acceptor H T
  pub signal_registration : SignalRegistration
  pub local_endpoint : Endpoint

-- The members before the registration of the signal handler.
abbrev pub initial : {H T : Type 0} → H → TcpServer H T
initial handler = record {
  acceptor = record {
    handler = handler;
    socket = none;
    local_endpoint = any;
    tasks = [];
    is_cancelled = false;
  };
  signal_registration = record { reactor = false };
  local_endpoint = any;
}

abbrev bound_format : Bool → String
bound_format true = "TcpServer: %s successfully bound with external reactor"
bound_format false = "TcpServer: %s successfully bound"

module _ {H T : Type 0} (os : Os) (client_handler : ClientHandler H T) where
  abbrev on_acceptor : {A : Type 0} → Exec (Acceptor H T) A → Exec (TcpServer H T) A
  on_acceptor = zoom (λ s. s.acceptor) (λ a s. record s { acceptor = a })

  abbrev pub on_world : {A : Type 0} → Exec World A → Exec (TcpServer H T) A
  on_world =
      zoom (λ s. client_handler.world s.acceptor.handler)
        (λ w s. record s {
          acceptor = record s.acceptor { handler = client_handler.set_world w s.acceptor.handler };
        })

  abbrev update : (TcpServer H T → TcpServer H T) → Exec (TcpServer H T) (Unit {0})
  update f s = (ok tt, f s)

  -- An exception destroys the members that are there, and so the registration.
  bound : Bool → Endpoint → ℤ → Exec (TcpServer H T) (Unit {0})
  unfolding unregister log
  bound external local_endpoint status s =
      (if not (eqb_ℤ status (pos 0))
          then (on_world (unregister os s.signal_registration)
              >> throw (record {
                format = "Failed to open acceptor on %s";
                args = text (print local_endpoint) ∷ [];
              }))
          else (update (λ t. record t { local_endpoint = s.acceptor.local_endpoint })
              >> on_world (
                  log info (record {
                    format = bound_format external;
                    args = text (print s.acceptor.local_endpoint) ∷ [];
                  }))))
        s

  -- Both constructors, on the members; `external` says whether the reactor is the caller's.
  unfoldable pub construct : Bool → Endpoint → Exec (TcpServer H T) (Unit {0})
  unfolding register_for_sigint open_acceptor bound
  construct external local_endpoint = do
    registration ← on_world (register_for_sigint os true)
    update (λ s. record s { signal_registration = registration })
    status ← on_acceptor (open_acceptor os client_handler local_endpoint)
    bound external local_endpoint status

  unfoldable pub start : Exec (TcpServer H T) (Unit {0})
  unfolding ask
  start = do status ← on_world (ask os run_event_loop); pure tt

  unfoldable pub stop : Exec (TcpServer H T) (Unit {0})
  unfolding stop_server
  stop = on_acceptor (stop_server os client_handler)
