-- ===== src/Tcp/Accepting.antt =====
-- What an acceptor hands to its client handler, and what is left of it after it is closed.
use tcp_udp.Base.{
  ◌≡◌, refl, ◌⊎◌, inl, inr, true, false, Option, none, some, List, [], ◌∷◌, ◌++◌, Bool-cases,
}
use tcp_udp.Base.Int.{pos, negsuc, eqb_ℤ}
use tcp_udp.Sys.Exec.{ok, continue}
use tcp_udp.Sys.World.{Os, Reply, acceptor_accept, acceptor_close, ask, remove_handler, acceptor}
use tcp_udp.Io.{set_linger_timeout}
use tcp_udp.Tcp.Session.{Session}
use tcp_udp.Tcp.Acceptor.{
  ClientHandler, Acceptor, accepted_session, handle_input, stop_each, stop_all_tasks, close,
}

-- A handler whose methods never throw.
pub record IsQuiet {H T : Type 0} (handler : ClientHandler H T) : Type 0 where
  pub handles :
      (s : Session) (h : H) → (task : Option T) × ((handler.handle_client s h).0 ≡ ok task)
  pub stops : (task : T) (h : H) → (handler.stop task h).0 ≡ ok tt

-- The tasks with the one that was started, if there is one.
abbrev pub with_task : {T : Type 0} → List T → Option T → List T
with_task tasks none = tasks
with_task tasks (some task) = tasks ++ task ∷ []

module _ {H T : Type 0} (os : Os) (c : ClientHandler H T) (quiet : IsQuiet c) where
  stop_each-returns : (tasks : List T) (h : H) → (stop_each os c tasks h).0 ≡ ok tt
  unfolding stop_each
  stop_each-returns [] h = refl
  stop_each-returns (task ∷ rest) h =
      rw (quiet.stops task h, continue) (stop_each-returns rest (c.stop task h).1)

  stop_all_tasks-state :
      (a : Acceptor H T)
      → stop_all_tasks os c a ≡ (
        ok tt,
        record a {
          handler = (stop_each os c a.tasks a.handler).1;
          tasks = [];
          is_cancelled = true;
        },
      )
  unfolding stop_all_tasks
  stop_all_tasks-state a = rw (stop_each-returns a.tasks a.handler, continue) refl

  -- The state when the tasks are about to be stopped.
  abbrev pub before_stop : Acceptor H T → Acceptor H T
  before_stop a =
      let removed = (ask os (remove_handler acceptor) (c.world a.handler)).1 in
      let h = c.set_world removed a.handler in
      let closed = (ask os (acceptor_close a.socket) (c.world h)).1 in
      record a { handler = c.set_world closed h; socket = none }

  -- The state behind a close.
  abbrev pub after_close : Acceptor H T → Acceptor H T
  after_close a = record (before_stop a) {
    handler = (stop_each os c a.tasks (before_stop a).handler).1;
    tasks = [];
    is_cancelled = true;
  }

  pub close-state : (a : Acceptor H T) → close os c a ≡ (ok (pos 0), after_close a)
  unfolding close ask
  close-state a = rw (stop_all_tasks-state (before_stop a), continue) refl

  -- Closing an acceptor, whatever the system answers and whatever state it is in, succeeds, and leaves
  -- it without a socket and without tasks, and marked as cancelled (the handler never throws).
  pub close_lem :
      (a : Acceptor H T)
      → let r = close os c a in
        (r.0 ≡ ok (pos 0))
        × (r.1.socket ≡ none)
        × (r.1.tasks ≡ [])
        × (r.1.is_cancelled ≡ true)
        × (r.1.local_endpoint ≡ a.local_endpoint)
  unfolding close ask
  close_lem a =
      let before = before_stop a in
      rw (stop_all_tasks-state before, continue) (refl, refl, refl, refl, refl)

  abbrev answer : Acceptor H T → Reply
  answer a = os.reply (c.world a.handler).time (acceptor_accept a.socket)

  -- The state of the handler when it gets the session.
  abbrev before_handler : Acceptor H T → H
  before_handler a =
      let h = c.set_world (ask os (acceptor_accept a.socket) (c.world a.handler)).1 a.handler in
      c.set_world (set_linger_timeout os (some (answer a).socket) (c.world h)).1 h

  accept_failed :
      (a : Acceptor H T)
      → eqb_ℤ (answer a).value (negsuc 0) ≡ true
      → ((handle_input os c a).0 ≡ ok (negsuc 0)) × ((handle_input os c a).1.tasks ≡ a.tasks)
  unfolding handle_input
  accept_failed a e = rw e (refl, refl)

  accept_handled :
      (a : Acceptor H T) (task : Option T)
      → eqb_ℤ (answer a).value (negsuc 0) ≡ false
      → (c.handle_client (accepted_session os c a.local_endpoint (answer a)) (before_handler a)).0
        ≡ ok task
      → ((handle_input os c a).0 ≡ ok (pos 0))
        × ((handle_input os c a).1.tasks ≡ with_task a.tasks task)
  unfolding handle_input ask set_linger_timeout
  accept_handled a none e handled = rw e (rw (handled, continue) (refl, refl))
  accept_handled a (some task) e handled = rw e (rw (handled, continue) (refl, refl))

  -- A client that is accepted is handed to the handler as a session that has the peer's address, the
  -- acceptor's own endpoint and the new socket; the task that it starts, if any, is put behind the
  -- tasks, and the result is 0. Where accepting fails, no task is added, and the result is -1 (the
  -- handler never throws).
  pub handle_input_lem :
      (a : Acceptor H T)
      → let r = os.reply (c.world a.handler).time (acceptor_accept a.socket) in
        let q = handle_input os c a in
        ((eqb_ℤ r.value (negsuc 0) ≡ true) × (q.0 ≡ ok (negsuc 0)) × (q.1.tasks ≡ a.tasks))
        ⊎ ((eqb_ℤ r.value (negsuc 0) ≡ false)
            × (q.0 ≡ ok (pos 0))
            × ((h : H) × (task : Option T) × ((c.handle_client
                    (accepted_session os c a.local_endpoint r)
                    h).0
                  ≡ ok task)
                × (q.1.tasks ≡ with_task a.tasks task)))
  handle_input_lem a = elim (Bool-cases (eqb_ℤ (answer a).value (negsuc 0))) [
    | inl e ↦ inl (e, (accept_failed a e).0, (accept_failed a e).1)
    | inr e ↦
        let (task, handled) =
          quiet.handles (accepted_session os c a.local_endpoint (answer a)) (before_handler a) in
        inr (
          e,
          (accept_handled a task e handled).0,
          (before_handler a, task, handled, (accept_handled a task e handled).1),
        )
  ]
