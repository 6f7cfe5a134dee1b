-- ===== src/Tcp/Notified.antt =====
-- Who is written what by NotificationHandler.cpp, and which sessions stay active.
use tcp_udp.Base.{
  ℕ, ◌≤◌, ◌≡◌, refl, ◌∙◌, inl, inr, Option, some, List, [], ◌∷◌, ◌++◌, append-nil, append_assoc,
  arith, ◌==◌, if◌then◌else◌, Bool-cases, length,
}
use tcp_udp.Std.Text.{Bytes, size_sub}
use tcp_udp.Sys.Exec.{ok, continue, size}
use tcp_udp.Sys.World.{World, Os, log, info}
use tcp_udp.Sys.Trace.{observe-snoc, writes_out, chunks}
use tcp_udp.Tcp.Effects.{write-result, write-calls, write-time}
use tcp_udp.Tcp.Messages.{echo_response, notification}
use tcp_udp.Tcp.Notifying.{
  Client, Handler, notify_one, send_echo_response, send_notifications_to_others, timeout_ms,
  notify_all, process_message,
}

-- The clients other than the sender.
abbrev pub others : Client → List Client → List Client
others sender [] = []
others sender (c ∷ rest) =
    if c.pointer == sender.pointer then others sender rest else c ∷ others sender rest

-- What each of the clients is to be written.
abbrev pub notices : Bytes → List Client → List (Option ℕ × Bytes)
notices message [] = []
notices message (c ∷ rest) = (c.session.socket, notification message) ∷ notices message rest

module _ (os : Os) (message : Bytes) where
  notify_one-writes :
      (c : Client) (w : World)
      → (writes_out (notify_one os message c w).1.calls
          ≡ writes_out w.calls ++ (c.session.socket, notification message) ∷ [])
        × ((notify_one os message c w).0 ≡ ok tt)
  unfolding notify_one log
  notify_one-writes c w =
      let limit = some timeout_ms in
      (
        rw (write-result os c.session (notification message) limit w, continue)
            (rw (write-calls os c.session (notification message) limit w) (simp (observe-snoc))),
        rw (write-result os c.session (notification message) limit w, continue) refl,
      )

  send_echo_response-writes :
      (c : Client) (w : World)
      → (writes_out (send_echo_response os message c w).1.calls
          ≡ writes_out w.calls ++ (c.session.socket, echo_response message) ∷ [])
        × ((send_echo_response os message c w).0 ≡ ok tt)
  unfolding send_echo_response log
  send_echo_response-writes c w =
      let limit = some timeout_ms in
      (
        rw (write-result os c.session (echo_response message) limit w, continue)
            (rw (write-calls os c.session (echo_response message) limit w) (simp (observe-snoc))),
        rw (write-result os c.session (echo_response message) limit w, continue) refl,
      )

  -- Time passes, and nothing is read.
  notify_one-keeps :
      (c : Client) (w : World)
      → (w.time ≤ (notify_one os message c w).1.time)
        × (chunks (notify_one os message c w).1.calls ≡ chunks w.calls)
  unfolding notify_one log
  notify_one-keeps c w =
      let limit = some timeout_ms in
      (
        rw (write-result os c.session (notification message) limit w, continue)
            (omega (arith, write-time os c.session (notification message) limit w)),
        rw (write-result os c.session (notification message) limit w, continue)
            (rw (write-calls os c.session (notification message) limit w)
              (simp (observe-snoc, append-nil))),
      )

  send_echo_response-keeps :
      (c : Client) (w : World)
      → (w.time ≤ (send_echo_response os message c w).1.time)
        × (chunks (send_echo_response os message c w).1.calls ≡ chunks w.calls)
  unfolding send_echo_response log
  send_echo_response-keeps c w =
      let limit = some timeout_ms in
      (
        rw (write-result os c.session (echo_response message) limit w, continue)
            (omega (arith, write-time os c.session (echo_response message) limit w)),
        rw (write-result os c.session (echo_response message) limit w, continue)
            (rw (write-calls os c.session (echo_response message) limit w)
              (simp (observe-snoc, append-nil))),
      )

module _ (os : Os) (message : Bytes) (sender : Client) where
  notify_all-writes :
      (sessions : List Client) (w : World)
      → (writes_out (notify_all os message sender sessions w).1.calls
          ≡ writes_out w.calls ++ notices message (others sender sessions))
        × ((notify_all os message sender sessions w).0 ≡ ok tt)
  unfolding notify_all
  notify_all-writes [] w = (simp (append-nil), refl)
  notify_all-writes (c ∷ rest) w = elim (Bool-cases (c.pointer == sender.pointer)) [
    | inl e ↦ rw e (notify_all-writes rest w)
    | inr e ↦
        let (made, done) = notify_one-writes os message c w in
        let ih = notify_all-writes rest (notify_one os message c w).1 in
        rw e (rw (done, continue) (simp (ih.0, made, append_assoc), ih.1))
  ]

  -- A message is written back to its sender as an echo first, whatever becomes of that write, and then
  -- as a notification to every other active session, once and in their order; the sender gets no
  -- notification, and the sessions stay active.
  pub process_message-writes :
      (h : Handler)
      → (writes_out (process_message os message sender h).1.world.calls
          ≡ writes_out h.world.calls
            ++ (sender.session.socket, echo_response message)
              ∷ notices message (others sender h.active_sessions))
        × ((process_message os message sender h).1.active_sessions ≡ h.active_sessions)
        × ((process_message os message sender h).0 ≡ ok tt)
  unfolding process_message send_notifications_to_others log
  process_message-writes h =
      let (echo, echoed) = send_echo_response-writes os message sender h.world in
      let looped =
        notify_all-writes h.active_sessions
          (log info
            (record {
              format = "NotificationHandler: Sending notifications to %zu other clients";
              args = size (size_sub (length h.active_sessions) 1) ∷ [];
            })
            (send_echo_response os message sender h.world).1).1 in
      rw (echoed, continue) (simp (looped.0, echo, append_assoc), refl, looped.1)

  notify_all-keeps :
      (sessions : List Client) (w : World)
      → (w.time ≤ (notify_all os message sender sessions w).1.time)
        × (chunks (notify_all os message sender sessions w).1.calls ≡ chunks w.calls)
  unfolding notify_all
  notify_all-keeps [] w = (omega arith, refl)
  notify_all-keeps (c ∷ rest) w = elim (Bool-cases (c.pointer == sender.pointer)) [
    | inl e ↦ rw e (notify_all-keeps rest w)
    | inr e ↦
        let (_, done) = notify_one-writes os message c w in
        let ih = notify_all-keeps rest (notify_one os message c w).1 in
        let one = notify_one-keeps os message c w in
        rw e (rw (done, continue) (omega (arith, ih.0, one.0), ih.1 ∙ one.1))
  ]

  pub process_message-keeps :
      (h : Handler)
      → (h.world.time ≤ (process_message os message sender h).1.world.time)
        × (chunks (process_message os message sender h).1.world.calls ≡ chunks h.world.calls)
  unfolding process_message send_notifications_to_others log
  process_message-keeps h =
      let (_, echoed) = send_echo_response-writes os message sender h.world in
      let one = send_echo_response-keeps os message sender h.world in
      let looped =
        notify_all-keeps h.active_sessions
          (log info
            (record {
              format = "NotificationHandler: Sending notifications to %zu other clients";
              args = size (size_sub (length h.active_sessions) 1) ∷ [];
            })
            (send_echo_response os message sender h.world).1).1 in
      rw (echoed, continue) (omega (arith, looped.0, one.0), looped.1 ∙ one.1)
