-- ===== src/Udp/Lifetime.antt =====
-- The life of a UDP server: what it releases, and that it releases it once.
use tcp_udp.Base.{
  ℕ, ◌≡◌, refl, ap, ◌∙◌, inl, inr, true, false, Option, none, some, List, [], ◌∷◌, ◌++◌, append-nil,
  append_assoc, if◌then◌else◌, Bool-cases,
}
use tcp_udp.Base.Int.{pos}
use tcp_udp.Sys.Exec.{ok, continue, pure, ◌>>◌}
use tcp_udp.Sys.World.{
  World, Os, Call, Reply, ask, log, info, udp_server, remove_handler, end_event_loop, remove_sigint,
  dgram_close,
}
use tcp_udp.Sys.Trace.{observe, observe-snoc}
use tcp_udp.Udp.Server.{
  received_message, ClientHandler, UdpServer, start, stop, stop_each, stop_running, handle_input,
}

-- The calls by which a server gives back what it has.
abbrev pub release : Call → Reply → List Call
release (remove_handler udp_server) r = remove_handler udp_server ∷ []
release (dgram_close socket) r = dgram_close socket ∷ []
release remove_sigint r = remove_sigint ∷ []
release end_event_loop r = end_event_loop ∷ []
release _ r = []

-- A handler whose methods never throw, and leave the server's registrations and its socket alone.
pub record IsQuiet {H T : Type 0} (c : ClientHandler H T) : Type 0 where
  pub handles : (s : Option ℕ) (h : H) → (task : Option T) × ((c.handle_client s h).0 ≡ ok task)
  pub stops : (task : T) (h : H) → (c.stop task h).0 ≡ ok tt
  pub world_set : (w : World) (h : H) → c.world (c.set_world w h) ≡ w
  pub handles_release :
      (s : Option ℕ) (h : H)
      → observe release (c.world (c.handle_client s h).1).calls ≡ observe release (c.world h).calls
  pub stops_release :
      (task : T) (h : H)
      → observe release (c.world (c.stop task h).1).calls ≡ observe release (c.world h).calls

-- The tasks with the one that was started, if there is one.
abbrev pub with_task : {T : Type 0} → List T → Option T → List T
with_task tasks none = tasks
with_task tasks (some task) = tasks ++ task ∷ []

-- What other threads and the reactor do with a server.
pub data Op : Type 0 where
  starts stops input : Op

module _ {H T : Type 0} (os : Os) (c : ClientHandler H T) where
  unfoldable pub step : Op → UdpServer H T → UdpServer H T
  step starts u = (start os c u).1
  step stops u = (stop os c u).1
  step input u = (handle_input os c u).1

  unfoldable pub run : List Op → UdpServer H T → UdpServer H T
  unfolding step
  run [] u = u
  run (o ∷ os) u = run os (step o u)

  -- What a server has given back so far.
  abbrev pub released : UdpServer H T → List Call
  released u = observe release (c.world u.handler).calls

  abbrev pub stopping : List Call
  stopping = end_event_loop ∷ remove_handler udp_server ∷ []

  -- What a server that had given back `before` has given back after any operations.
  abbrev pub expected : List Call → UdpServer H T → List Call
  expected before u = if u.stopped then before ++ stopping else before

  module _ (quiet : IsQuiet c) where
    pub stop_each_lem :
        (tasks : List T) (h : H)
        → ((stop_each os c tasks h).0 ≡ ok tt)
          × (observe release (c.world (stop_each os c tasks h).1).calls
              ≡ observe release (c.world h).calls)
    unfolding stop_each
    stop_each_lem [] h = (refl, refl)
    stop_each_lem (task ∷ rest) h =
        let (gave, same) = stop_each_lem rest (c.stop task h).1 in
        rw (quiet.stops task h, continue) (gave, same ∙ quiet.stops_release task h)

    abbrev pub before_stop : UdpServer H T → UdpServer H T
    before_stop u =
        let h = c.set_world (ask os end_event_loop (c.world u.handler)).1 u.handler in
        record u { handler = c.set_world (ask os (remove_handler udp_server) (c.world h)).1 h }

    pub stop_running-state :
        (u : UdpServer H T)
        → stop_running os c u ≡ (
          ok tt,
          record u {
            handler = (stop_each os c u.tasks (before_stop u).handler).1;
            tasks = [];
            is_cancelled = true;
            stopped = true;
          },
        )
    unfolding stop_running
    stop_running-state u = rw ((stop_each_lem u.tasks (before_stop u).handler).0, continue) refl

    before_stop-released : (u : UdpServer H T) → released (before_stop u) ≡ released u ++ stopping
    unfolding ask
    before_stop-released u =
        simp (quiet.world_set, observe-snoc)
          (append_assoc (released u) (end_event_loop ∷ []) (remove_handler udp_server ∷ []))

    start-expected :
        (before : List Call) (u : UdpServer H T)
        → released u ≡ expected before u
        → released (start os c u).1 ≡ expected before (start os c u).1
    unfolding start ask
    start-expected before u e = simp (quiet.world_set, observe-snoc, append-nil) e

    -- The handler as it gets a datagram: the message is logged.
    abbrev pub before_handler : UdpServer H T → H
    before_handler u =
        let w = (log info (received_message u.local_endpoint) (c.world u.handler)).1 in
        c.set_world w u.handler

    pub handle_input-handled :
        (u : UdpServer H T) (task : Option T)
        → (c.handle_client u.socket (before_handler u)).0 ≡ ok task
        → handle_input os c u ≡ (
          ok (pos 0),
          record u {
            handler = (c.handle_client u.socket (before_handler u)).1;
            tasks = with_task u.tasks task;
          },
        )
    unfolding handle_input log
    handle_input-handled u none handled = rw (handled, continue) refl
    handle_input-handled u (some task) handled = rw (handled, continue) refl

    handle_input-expected :
        (before : List Call) (u : UdpServer H T)
        → released u ≡ expected before u
        → released (handle_input os c u).1 ≡ expected before (handle_input os c u).1
    unfolding log
    handle_input-expected before u e =
        let (task, handled) = quiet.handles u.socket (before_handler u) in
        rw (handle_input-handled u task handled) (
          quiet.handles_release u.socket (before_handler u)
          ∙ ap (λ (w : World). observe release w.calls) (quiet.world_set _ u.handler)
          ∙ e)

    -- A server that is stopped already is left alone.
    pub stop-stopped : (u : UdpServer H T) → u.stopped ≡ true → stop os c u ≡ (ok tt, u)
    unfolding stop
    stop-stopped u was = ap (λ b. (if b then pure tt else stop_running os c) u) was

    pub stop-running : (u : UdpServer H T) → u.stopped ≡ false → stop os c u ≡ stop_running os c u
    unfolding stop
    stop-running u not_yet = ap (λ b. (if b then pure tt else stop_running os c) u) not_yet

    -- In every state, stopping does not throw, and leaves the server stopped.
    pub stop-is_stopped :
        (u : UdpServer H T) → ((stop os c u).0 ≡ ok tt) × ((stop os c u).1.stopped ≡ true)
    stop-is_stopped u = elim (Bool-cases u.stopped) [
      | inl was ↦ rw (stop-stopped u was) (refl, was)
      | inr not_yet ↦ rw (stop-running u not_yet ∙ stop_running-state u) (refl, refl)
    ]

    -- To stop a server twice, whatever state it is in, is to stop it once: no call is made again, and
    -- nothing is changed again (the handler never throws).
    pub stop-stop : (u : UdpServer H T) → (stop os c >> stop os c) u ≡ stop os c u
    stop-stop u =
        let (gave, done) = stop-is_stopped u in
        rw (gave, continue) (stop-stopped (stop os c u).1 done)

    pub stop-expected :
        (before : List Call) (u : UdpServer H T)
        → released u ≡ expected before u
        → released (stop os c u).1 ≡ expected before (stop os c u).1
    stop-expected before u e = elim (Bool-cases u.stopped) [
      | inl was ↦ rw (stop-stopped u was) e
      | inr not_yet ↦
          let so_far = e ∙ ap (λ b. if b then before ++ stopping else before) not_yet in
          rw (stop-running u not_yet ∙ stop_running-state u) (
            (stop_each_lem u.tasks (before_stop u).handler).1
            ∙ before_stop-released u
            ∙ ap (λ l. l ++ stopping) so_far)
    ]

    step-expected :
        (before : List Call) (o : Op) (u : UdpServer H T)
        → released u ≡ expected before u
        → released (step o u) ≡ expected before (step o u)
    unfolding step
    step-expected before starts u e = start-expected before u e
    step-expected before stops u e = stop-expected before u e
    step-expected before input u e = handle_input-expected before u e

    pub run-expected :
        (before : List Call) (ops : List Op) (u : UdpServer H T)
        → released u ≡ expected before u
        → released (run ops u) ≡ expected before (run ops u)
    unfolding run
    run-expected before [] u e = e
    run-expected before (o ∷ ops) u e =
        run-expected before ops (step o u) (step-expected before o u e)
