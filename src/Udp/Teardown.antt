-- ===== src/Udp/Teardown.antt =====
-- The end of a UDP server: whatever happened before, it gives back what it has.
use tcp_udp.Base.{
  ◌≡◌, refl, sym, ap, ◌∙◌, inl, inr, true, false, List, [], ◌∷◌, ◌++◌, append_assoc, if◌then◌else◌,
  Bool-cases,
}
use tcp_udp.Sys.Exec.{continue}
use tcp_udp.Sys.World.{
  Os, Call, ask, log, udp_server, remove_handler, end_event_loop, remove_sigint, dgram_close,
}
use tcp_udp.Sys.Trace.{observe, observe-snoc}
use tcp_udp.Io.Signal.{unregister}
use tcp_udp.Udp.Server.{ClientHandler, UdpServer, start, stop, close_down, destroy}
use tcp_udp.Udp.Lifetime.{
  IsQuiet, Op, starts, stops, input, release, step, run, released, stopping, expected,
  stop_running-state, stop-stopped, stop-running, stop-is_stopped, stop-expected, run-expected,
  handle_input-handled, before_handler,
}

module _ {H T : Type 0} (os : Os) (c : ClientHandler H T) where
  module _ (quiet : IsQuiet c) where
    -- Operations change neither the socket nor the registration.
    record Keeps (u v : UdpServer H T) : Type 0 where
      same_socket : v.socket ≡ u.socket
      same_registration : v.signal_registration ≡ u.signal_registration

    stop-Keeps : (u : UdpServer H T) → Keeps u (stop os c u).1
    stop-Keeps u = elim (Bool-cases u.stopped) [
      | inl was ↦
          rw (stop-stopped os c quiet u was)
            (record { same_socket = refl; same_registration = refl })
      | inr not_yet ↦
          rw (stop-running os c quiet u not_yet ∙ stop_running-state os c quiet u)
            (record { same_socket = refl; same_registration = refl })
    ]

    step-Keeps : (o : Op) (u : UdpServer H T) → Keeps u (step os c o u)
    unfolding step start ask
    step-Keeps starts u = record { same_socket = refl; same_registration = refl }
    step-Keeps stops u = stop-Keeps u
    step-Keeps input u =
        let (task, handled) = quiet.handles u.socket (before_handler os c quiet u) in
        rw (handle_input-handled os c quiet u task handled, step)
          (record { same_socket = refl; same_registration = refl })

    run-Keeps : (ops : List Op) (u : UdpServer H T) → Keeps u (run os c ops u)
    unfolding run
    run-Keeps [] u = record { same_socket = refl; same_registration = refl }
    run-Keeps (o ∷ ops) u =
        let now = step-Keeps o u in
        let later = run-Keeps ops (step os c o u) in
        record {
          same_socket = later.same_socket ∙ now.same_socket;
          same_registration = later.same_registration ∙ now.same_registration;
        }

    close_down-released :
        (u : UdpServer H T)
        → u.signal_registration.reactor ≡ true
        → released os c (close_down os c u).1
          ≡ released os c u ++ dgram_close u.socket ∷ remove_sigint ∷ []
    unfolding close_down ask log unregister
    close_down-released u has = rw has (
        simp (quiet.world_set, observe-snoc)
          (append_assoc (released os c u) (dgram_close u.socket ∷ []) (remove_sigint ∷ [])))

    destroy-released :
        (before : List Call) (u : UdpServer H T)
        → released os c u ≡ expected os c before u
        → u.signal_registration.reactor ≡ true
        → released os c (destroy os c u).1
          ≡ before
            ++ end_event_loop
              ∷ remove_handler udp_server
              ∷ dgram_close u.socket
              ∷ remove_sigint
              ∷ []
    unfolding destroy
    destroy-released before u e has =
        let (gave, done) = stop-is_stopped os c quiet u in
        let keeps = stop-Keeps u in
        let v = (stop os c u).1 in
        let stopped_by =
          stop-expected os c quiet before u e
          ∙ ap (λ b. if b then before ++ stopping os c else before) done in
        rw (gave, continue)
          (close_down-released v (ap (λ s. s.reactor) keeps.same_registration ∙ has)
            ∙ ap (λ l. l ++ dgram_close v.socket ∷ remove_sigint ∷ []) stopped_by
            ∙ ap (λ s. (before ++ stopping os c) ++ dgram_close s ∷ remove_sigint ∷ [])
                keeps.same_socket
            ∙ append_assoc before (stopping os c) (dgram_close u.socket ∷ remove_sigint ∷ []))

    -- A server that is destroyed after any operations, however often it was stopped in between and
    -- whether it was started or not, has by the end given back its event loop, its handler, its socket and its
    -- signal handler, each once and in this order, (the server is not stopped at
    -- first and has its signal handler; the client handler never throws and releases none of them).
    pub run-destroy :
        (ops : List Op) (u : UdpServer H T)
        → u.stopped ≡ false
        → u.signal_registration.reactor ≡ true
        → observe release (c.world (destroy os c (run os c ops u)).1.handler).calls
          ≡ observe release (c.world u.handler).calls
            ++ end_event_loop
              ∷ remove_handler udp_server
              ∷ dgram_close u.socket
              ∷ remove_sigint
              ∷ []
    run-destroy ops u fresh has =
        let before = released os c u in
        let keeps = run-Keeps ops u in
        let at_first = ap (λ b. if b then before ++ stopping os c else before) (sym fresh) in
        destroy-released before (run os c ops u) (run-expected os c quiet before ops u at_first)
          (ap (λ s. s.reactor) keeps.same_registration ∙ has)
        ∙ ap
            (λ s.
              before
              ++ end_event_loop ∷ remove_handler udp_server ∷ dgram_close s ∷ remove_sigint ∷ [])
            keeps.same_socket
