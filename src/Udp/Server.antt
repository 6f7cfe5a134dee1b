-- ===== src/Udp/Server.antt =====
-- AceUdpServer.h and AceUdpServer.cpp, over any client handler.
use tcp_udp.Base.{ℕ, Bool, true, false, Option, none, some, List, [], ◌∷◌, ◌++◌, if◌then◌else◌}
use tcp_udp.Base.Int.{ℤ, pos, negsuc, eqb_ℤ}
use tcp_udp.Common.Endpoint.{Endpoint, print}
use tcp_udp.Sys.Exec.{Message, text, Exec, ok, pure, throw, ◌>>=◌, ◌>>◌, zoom}
use tcp_udp.Sys.World.{
  World, Os, Reply, ask, log, info, udp_server, register_handler, remove_handler, dgram_open,
  dgram_close, run_event_loop, end_event_loop,
}
use tcp_udp.Io.Signal.{SignalRegistration, register_for_sigint, unregister}

-- `IUdpClientHandler` with the `ITask`s that it makes: a state that holds the thread's world, what a
-- datagram on the socket of a session starts, if anything, and how a task is stopped.
pub record ClientHandler (H T : Type 0) : Type 0 where
  pub world : H → World
  pub set_world : World → H → H
  pub handle_client : Option ℕ → Exec H (Option T)
  pub stop : T → Exec H (Unit {0})

-- The session is the server's own socket.
pub record UdpServer (H T : Type 0) : Type 0 where
  pub handler : H
  pub socket : Option ℕ
  pub signal_registration : SignalRegistration
  pub local_endpoint : Endpoint
  pub stopped : Bool
  pub tasks : List T
  pub is_cancelled : Bool

abbrev pub received_message : Endpoint → Message
received_message local_endpoint = record {
  format = "UdpServer: received message from %s";
  args = text (print local_endpoint) ∷ [];
}

module _ {H T : Type 0} (os : Os) (client_handler : ClientHandler H T) where
  abbrev pub on_handler : {A : Type 0} → Exec H A → Exec (UdpServer H T) A
  on_handler = zoom (λ u. u.handler) (λ h u. record u { handler = h })

  abbrev pub on_world : {A : Type 0} → Exec World A → Exec (UdpServer H T) A
  on_world =
      zoom (λ u. client_handler.world u.handler)
        (λ w u. record u { handler = client_handler.set_world w u.handler })

  abbrev update : (UdpServer H T → UdpServer H T) → Exec (UdpServer H T) (Unit {0})
  update f u = (ok tt, f u)

  -- The members as they are initialised, before the constructor's body and the registration.
  abbrev pub initial : Endpoint → H → UdpServer H T
  initial local_endpoint handler = record {
    handler = handler;
    socket = none;
    signal_registration = record { reactor = false };
    local_endpoint = local_endpoint;
    stopped = false;
    tasks = [];
    is_cancelled = false;
  }

  -- An exception destroys the members that are there, and so the registration.
  opened : Endpoint → Reply → Exec (UdpServer H T) (Unit {0})
  unfolding log unregister
  opened local_endpoint r =
      if eqb_ℤ r.value (negsuc 0)
      then (λ u.
          (on_world (unregister os u.signal_registration)
              >> throw (record {
                format = "Failed to open UDP socket at %s";
                args = text (print local_endpoint) ∷ [];
              }))
            u)
      else (update (λ u. record u { socket = some r.socket; local_endpoint = r.address })
          >> on_world (
              log info (record {
                format = "UdpServer: %s successfully bound";
                args = text (print r.address) ∷ [];
              })))

  -- The constructor, on its members. It has a reactor, the caller's or its own.
  unfoldable pub construct : Endpoint → Exec (UdpServer H T) (Unit {0})
  unfolding opened register_for_sigint ask
  construct local_endpoint = do
    registration ← on_world (register_for_sigint os true)
    update (λ u. record u { signal_registration = registration })
    r ← on_world (ask os (dgram_open local_endpoint))
    opened local_endpoint r

  -- The results of both calls are ignored.
  unfoldable pub start : Exec (UdpServer H T) (Unit {0})
  unfolding ask
  start = do
    registered ← on_world (ask os (register_handler udp_server))
    ran ← on_world (ask os run_event_loop)
    pure tt

  unfoldable pub stop_each : List T → Exec H (Unit {0})
  stop_each [] = pure tt
  stop_each (task ∷ rest) = client_handler.stop task >> stop_each rest

  unfoldable pub stop_all_tasks : Exec (UdpServer H T) (Unit {0})
  unfolding stop_each
  stop_all_tasks u =
      (do
        update (λ v. record v { is_cancelled = true })
        on_handler (stop_each u.tasks)
        update (λ v. record v { tasks = [] }))
        u

  unfoldable pub stop_running : Exec (UdpServer H T) (Unit {0})
  unfolding stop_all_tasks ask
  stop_running = do
    ended ← on_world (ask os end_event_loop)
    removed ← on_world (ask os (remove_handler udp_server))
    stop_all_tasks
    update (λ u. record u { stopped = true })

  unfoldable pub stop : Exec (UdpServer H T) (Unit {0})
  unfolding stop_running
  stop u = (if u.stopped then pure tt else stop_running) u

  -- `tasks_.emplace_back`, where there is a task.
  abbrev keep_task : Option T → Exec (UdpServer H T) (Unit {0})
  keep_task none = pure tt
  keep_task (some task) = update (λ u. record u { tasks = u.tasks ++ task ∷ [] })

  -- The message that is logged names the server's own endpoint.
  unfoldable pub handle_input : Exec (UdpServer H T) ℤ
  unfolding log
  handle_input u =
      (do
        on_world (log info (received_message u.local_endpoint))
        task ← on_handler (client_handler.handle_client u.socket)
        keep_task task
        pure (pos 0))
        u

  -- The end of the destructor, and the destructor of the registration.
  unfoldable pub close_down : Exec (UdpServer H T) (Unit {0})
  unfolding ask log unregister
  close_down u =
      (do
        closed ← on_world (ask os (dgram_close u.socket))
        on_world (
            log info (record {
              format = "UdpServer: %s socket closed";
              args = text (print u.local_endpoint) ∷ [];
            }))
        on_world (unregister os u.signal_registration))
        u

  unfoldable pub destroy : Exec (UdpServer H T) (Unit {0})
  unfolding stop close_down
  destroy = stop >> close_down
