-- ===== src/ServerProxy/Stopping.antt =====
-- What stopping the server proxy leaves, and what it gives back.
use tcp_udp.Base.{
  ◌≡◌, refl, sym, ap, ◌∙◌, inl, inr, false, Option, none, ℕ, List, [], ◌∷◌, ◌++◌, append-nil,
  append_assoc, if◌then◌else◌, Bool-cases, All, subst, Bool,
}
use tcp_udp.Std.Dict.{IsMap}
use tcp_udp.Sys.Exec.{ok, pure, continue}
use tcp_udp.Sys.World.{
  World, Os, Call, Reply, ask, log, acceptor, remove_handler, acceptor_close, end_event_loop,
}
use tcp_udp.Sys.World
use tcp_udp.Sys.Trace.{observe, observe-append, observe-snoc}
use tcp_udp.Tcp.Acceptor.{stop_each, stop_server}
use tcp_udp.Tcp.Accepting.{before_stop, close-state}
use tcp_udp.Tcp.Server
use tcp_udp.Tcp.Server.{TcpServer}
use tcp_udp.ServerProxy.Forwarder.{Route}
use tcp_udp.ServerProxy.ClientHandler.{Proxy, Task}
use tcp_udp.ServerProxy.Assembly.{
  TcpServerProxy, route, withdraw, withdraw_registered, stop_created, on_server, client_handler,
  stop,
}
use tcp_udp.ServerProxy.Ended.{
  without, IsGone, without-IsGone, stop_each-AreEnded, client_handler-IsQuiet,
}

-- The calls that give back a registration, the listening socket or the event loop.
abbrev pub release : Call → Reply → List Call
release (remove_handler o) r = remove_handler o ∷ []
release (acceptor_close s) r = acceptor_close s ∷ []
release end_event_loop r = end_event_loop ∷ []
release _ r = []

abbrev pub released : World → List Call
released w = observe release w.calls

-- A server that does not listen and has no tasks.
pub record IsIdle (s : TcpServer Proxy Task) : Type 0 where
  pub no_socket : s.acceptor.socket ≡ none
  pub no_tasks : s.acceptor.tasks ≡ []

module _ (os : Os) where
  module _ (r : Route) where
    -- What the server's stop does.
    server_stop_lem :
        (s : TcpServer Proxy Task)
        → let (result, t) = Server.stop os (client_handler os r) s in
          (result ≡ ok tt)
          × IsIdle t
          × (t.acceptor.handler.udp_handler.tcp_sessions
              ≡ without s.acceptor.tasks s.acceptor.handler.udp_handler.tcp_sessions)
          × (released t.acceptor.handler.udp_handler.world
              ≡ released s.acceptor.handler.udp_handler.world
                ++ remove_handler acceptor ∷ acceptor_close s.acceptor.socket ∷ end_event_loop ∷ [])
    unfolding Server.stop stop_server ask log
    server_stop_lem s =
        let c = client_handler os r in
        let a = s.acceptor in
        let quiet = client_handler-IsQuiet os r in
        let tasks = stop_each-AreEnded os r a.tasks (before_stop os c quiet a).handler in
        let before = before_stop os c quiet a in
        let asked : released before.handler.udp_handler.world
            ≡ released a.handler.udp_handler.world
              ++ remove_handler acceptor ∷ acceptor_close a.socket ∷ [] =
          ap (observe release) (append_assoc a.handler.udp_handler.world.calls _ _)
          ∙ observe-append release a.handler.udp_handler.world.calls _ in
        let ended = (stop_each os c a.tasks before.handler).1 in
        let silent = ap (observe release) tasks.is_silent in
        rw (close-state os c quiet a, continue)
          (
            refl,
            record { no_socket = refl; no_tasks = refl },
            tasks.leaves,
            observe-snoc release ended.udp_handler.world.calls end_event_loop
                  (os.reply ended.udp_handler.world.time end_event_loop)
                ∙ ap (λ l. l ++ end_event_loop ∷ []) (silent ∙ asked)
                ∙ append_assoc (released a.handler.udp_handler.world)
                    (remove_handler acceptor ∷ acceptor_close a.socket ∷ []) (end_event_loop ∷ []),
          )

  -- The calls of a stop of the UDP client's registration, and of the server.
  abbrev pub withdrawing : Bool → List Call
  withdrawing registered = if registered then remove_handler World.udp_client ∷ [] else []

  abbrev pub closing : Bool → Option ℕ → List Call
  closing created s =
      if created then remove_handler acceptor ∷ acceptor_close s ∷ end_event_loop ∷ [] else []

  abbrev proxy : TcpServerProxy → Proxy
  proxy p = p.tcp_server.acceptor.handler

  withdraw_lem :
      (p : TcpServerProxy)
      → let (result, q) = withdraw os p in
        (result ≡ ok tt)
        × (q.reactor_registered ≡ false)
        × (q.created ≡ p.created)
        × (q.tcp_server.acceptor.socket ≡ p.tcp_server.acceptor.socket)
        × (q.tcp_server.acceptor.tasks ≡ p.tcp_server.acceptor.tasks)
        × ((proxy q).udp_handler.tcp_sessions ≡ (proxy p).udp_handler.tcp_sessions)
        × (released (proxy q).udp_handler.world
            ≡ released (proxy p).udp_handler.world ++ withdrawing p.reactor_registered)
  unfolding withdraw withdraw_registered ask
  withdraw_lem p = elim (Bool-cases p.reactor_registered) [
    | inl e ↦
        rw (ap (λ b. (if b then withdraw_registered os else pure tt) p) e)
          (refl, refl, refl, refl, refl, refl, simp (e, observe-snoc))
    | inr e ↦
        rw (ap (λ b. (if b then withdraw_registered os else pure tt) p) e)
          (refl, e, refl, refl, refl, refl, simp (e, append-nil))
  ]

  stop_created_lem :
      (p : TcpServerProxy)
      → (p.created ≡ false → IsIdle p.tcp_server)
      → let (result, q) = stop_created os p in
        (result ≡ ok tt)
        × (q.reactor_registered ≡ p.reactor_registered)
        × IsIdle q.tcp_server
        × ((proxy q).udp_handler.tcp_sessions
            ≡ without p.tcp_server.acceptor.tasks (proxy p).udp_handler.tcp_sessions)
        × (released (proxy q).udp_handler.world
            ≡ released (proxy p).udp_handler.world
              ++ closing p.created p.tcp_server.acceptor.socket)
  unfolding stop_created
  stop_created_lem p idle =
      let c = client_handler os (route p) in
      elim (Bool-cases p.created) [
        | inl e ↦
            let (gave, ended, gone, calls) = server_stop_lem (route p) p.tcp_server in
            rw (ap (λ b. (if b then on_server (Server.stop os c) else pure tt) p) e)
              (gave, refl, ended, gone, rw e calls)
        | inr e ↦ rw (ap (λ b. (if b then on_server (Server.stop os c) else pure tt) p) e) (
          refl,
          refl,
          idle e,
          ap (λ ts. without ts (proxy p).udp_handler.tcp_sessions) (sym (idle e).no_tasks),
          simp (e, append-nil),
        )
      ]

  -- Stopping never throws. It takes the UDP client off the reactor if it is registered, and, where a
  -- server was made, takes the acceptor off, closes its socket and ends the event loop, each once and
  -- in this order, and gives nothing else back. Afterwards the proxy does not count the UDP client as
  -- registered, the TCP server does not listen, and its tasks are joined and gone, and with them the
  -- registrations of their clients (a proxy that has made no server does not listen and has no tasks
  -- before either; no client is registered twice).
  pub stop-IsIdle :
      (p : TcpServerProxy)
      → (p.created ≡ false → IsIdle p.tcp_server)
      → IsMap (proxy p).udp_handler.tcp_sessions
      → let (result, q) = stop os p in
        (result ≡ ok tt)
        × (released (proxy q).udp_handler.world
            ≡ released (proxy p).udp_handler.world
              ++ (withdrawing p.reactor_registered
                  ++ closing p.created p.tcp_server.acceptor.socket))
        × (q.reactor_registered ≡ false)
        × IsIdle q.tcp_server
        × All (IsGone (proxy q).udp_handler.tcp_sessions) p.tcp_server.acceptor.tasks
  unfolding stop
  stop-IsIdle p idle map =
      let (gave, off, same, socket, tasks, kept, withdrew) = withdraw_lem p in
      let q = (withdraw os p).1 in
      let idle' : q.created ≡ false → IsIdle q.tcp_server = λ e.
        let before = idle (sym same ∙ e) in
        record { no_socket = socket ∙ before.no_socket; no_tasks = tasks ∙ before.no_tasks } in
      let (gave', stays, ended, gone, closed) = stop_created_lem q idle' in
      let listed = p.tcp_server.acceptor.tasks in
      let total : (proxy (stop_created os q).1).udp_handler.tcp_sessions
          ≡ without listed (proxy p).udp_handler.tcp_sessions =
        gone
        ∙ ap (λ l. without l (proxy q).udp_handler.tcp_sessions) tasks
        ∙ ap (without listed) kept in
      let same_end =
        ap (λ c. closing c q.tcp_server.acceptor.socket) same ∙ ap (closing p.created) socket in
      rw (gave, continue)
        (
          gave',
          closed
              ∙ ap (λ l. l ++ closing q.created q.tcp_server.acceptor.socket) withdrew
              ∙ append_assoc (released (proxy p).udp_handler.world)
                  (withdrawing p.reactor_registered)
                  (closing q.created q.tcp_server.acceptor.socket)
              ∙ ap
                  (λ l.
                    released (proxy p).udp_handler.world ++ (withdrawing p.reactor_registered ++ l))
                  same_end,
          stays ∙ off,
          ended,
          subst (λ m. All (IsGone m) listed) (sym total)
              (without-IsGone listed (proxy p).udp_handler.tcp_sessions map),
        )
