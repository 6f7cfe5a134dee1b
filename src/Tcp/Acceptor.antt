-- ===== src/Tcp/Acceptor.antt =====
-- AceTcpServerAcceptor.cpp and AceTcpServer.cpp, over any client handler. What ACE prints on errors
-- is left out.
use tcp_udp.Base.{ℕ, Bool, true, Option, none, some, List, [], ◌∷◌, ◌++◌, if◌then◌else◌}
use tcp_udp.Base.Int.{ℤ, pos, negsuc, eqb_ℤ}
use tcp_udp.Common.Endpoint.{Endpoint, print}
use tcp_udp.Sys.Exec.{text, Exec, ok, pure, ◌>>=◌, ◌>>◌, zoom}
use tcp_udp.Sys.World.{
  World, Os, Reply, ask, log, info, acceptor, register_handler, remove_handler, acceptor_open,
  acceptor_accept, acceptor_close, end_event_loop,
}
use tcp_udp.Io.{set_linger_timeout}
use tcp_udp.Tcp.Session.{Session, client_session}

-- `ITcpClientHandler` with the `ITask`s that it makes: a state that holds the thread's world, what a
-- new session starts, if anything, and how a task is stopped.
pub record ClientHandler (H T : Type 0) : Type 0 where
  pub world : H → World
  pub set_world : World → H → H
  pub handle_client : Session → Exec H (Option T)
  pub stop : T → Exec H (Unit {0})

-- The members that change.
pub record Acceptor (H T : Type 0) : Type 0 where
  pub handler : H
  pub socket : Option ℕ
  pub local_endpoint : Endpoint
  pub tasks : List T
  pub is_cancelled : Bool

module _ {H T : Type 0} (os : Os) (client_handler : ClientHandler H T) where
  abbrev on_handler : {A : Type 0} → Exec H A → Exec (Acceptor H T) A
  on_handler = zoom (λ a. a.handler) (λ h a. record a { handler = h })

  abbrev on_world : {A : Type 0} → Exec World A → Exec (Acceptor H T) A
  on_world =
      zoom (λ a. client_handler.world a.handler)
        (λ w a. record a { handler = client_handler.set_world w a.handler })

  abbrev update : (Acceptor H T → Acceptor H T) → Exec (Acceptor H T) (Unit {0})
  update f a = (ok tt, f a)

  -- The result of registering the handler that is open.
  registered : Reply → Exec (Acceptor H T) ℤ
  unfolding ask
  registered r a =
      (if eqb_ℤ r.value (negsuc 0)
          then (do
            closed ← on_world (ask os (acceptor_close a.socket))
            update (λ b. record b { socket = none })
            pure (negsuc 0))
          else pure (pos 0))
        a

  opened : Reply → Exec (Acceptor H T) ℤ
  unfolding registered ask
  opened r = if eqb_ℤ r.value (negsuc 0) then pure (negsuc 0) else (do
    update (λ a. record a { socket = some r.socket; local_endpoint = r.address })
    result ← on_world (ask os (register_handler acceptor))
    registered result)

  unfoldable pub open_acceptor : Endpoint → Exec (Acceptor H T) ℤ
  unfolding opened ask
  open_acceptor local_endpoint = do r ← on_world (ask os (acceptor_open local_endpoint)); opened r

  -- `tasks_.emplace_back`, where there is a task.
  abbrev keep_task : Option T → Exec (Acceptor H T) (Unit {0})
  keep_task none = pure tt
  keep_task (some task) = update (λ a. record a { tasks = a.tasks ++ task ∷ [] })

  -- The session of a client that was accepted.
  abbrev pub accepted_session : Endpoint → Reply → Session
  accepted_session local_endpoint r = record {
    side = client_session;
    endpoints = record { local = local_endpoint; remote = r.address };
    socket = some r.socket;
    address = r.address;
  }

  accepted : Reply → Exec (Acceptor H T) ℤ
  unfolding set_linger_timeout
  accepted r a =
      (if eqb_ℤ r.value (negsuc 0) then pure (negsuc 0) else (do
        on_world (set_linger_timeout os (some r.socket))
        task ← on_handler (client_handler.handle_client (accepted_session a.local_endpoint r))
        keep_task task
        pure (pos 0)))
        a

  unfoldable pub handle_input : Exec (Acceptor H T) ℤ
  unfolding accepted ask
  handle_input a = (do r ← on_world (ask os (acceptor_accept a.socket)); accepted r) a

  unfoldable pub stop_each : List T → Exec H (Unit {0})
  stop_each [] = pure tt
  stop_each (task ∷ rest) = client_handler.stop task >> stop_each rest

  unfoldable pub stop_all_tasks : Exec (Acceptor H T) (Unit {0})
  unfolding stop_each
  stop_all_tasks a =
      (do
        update (λ b. record b { is_cancelled = true })
        on_handler (stop_each a.tasks)
        update (λ b. record b { tasks = [] }))
        a

  unfoldable pub close : Exec (Acceptor H T) ℤ
  unfolding stop_all_tasks ask
  close a =
      (do
        removed ← on_world (ask os (remove_handler acceptor))
        closed ← on_world (ask os (acceptor_close a.socket))
        update (λ b. record b { socket = none })
        stop_all_tasks
        pure (pos 0))
        a

  -- `AceTcpServer::stop`.
  unfoldable pub stop_server : Exec (Acceptor H T) (Unit {0})
  unfolding close ask log
  stop_server = do
    closed ← close
    ended ← on_world (ask os end_event_loop)
    (λ a.
        on_world
          (log info (record {
            format = "TcpServer: %s stopped";
            args = text (print a.local_endpoint) ∷ [];
          }))
          a)
