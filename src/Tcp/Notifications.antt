-- ===== src/Tcp/Notifications.antt =====
-- The task of a client of NotificationHandler.cpp from its start to its end, with no other thread
-- in between.
use tcp_udp.Base.{
  ℕ, ◌<◌, ◌≡◌, ◌≢◌, refl, sym, ap, ◌∙◌, ◌⊎◌, inl, inr, true, false, Option, some, List, [], ◌∷◌,
  ◌++◌, append-nil, append_assoc, arith, take,
}
use tcp_udp.Std.Text.{Bytes}
use tcp_udp.Sys.Exec.{ok, continue, text}
use tcp_udp.Sys.Loop.{while_not_cancelled, while_not_cancelled_inv}
use tcp_udp.Sys.World.{Os, IsPosix, Reply, Call, log, info}
use tcp_udp.Sys.Trace.{observe-snoc, writes_out, chunks}
use tcp_udp.Io.{IoResult, success}
use tcp_udp.Io.Classify.{success-cases}
use tcp_udp.Common.Buffer.{fill}
use tcp_udp.Tcp.Session
use tcp_udp.Tcp.Session.{Session}
use tcp_udp.Tcp.Effects.{
  read_call, read_reply, read_result, read-calls, read-result, read-time, read_data, read_nothing,
}
use tcp_udp.Tcp.Messages.{echo_response}
use tcp_udp.Tcp.Notifying.{Client, Handler, Task, timeout_ms, process_message, round, after_read}
use tcp_udp.Tcp.Notified.{others, notices, process_message-writes, process_message-keeps}

-- What a list of messages of one client has to make the server write.
abbrev pub answers : Client → List Client → List Bytes → List (Option ℕ × Bytes)
answers sender sessions [] = []
answers sender sessions (m ∷ ms) =
    (sender.session.socket, echo_response m) ∷ notices m (others sender sessions)
    ++ answers sender sessions ms

answers-append :
    (sender : Client) (sessions : List Client) (xs ys : List Bytes)
    → answers sender sessions (xs ++ ys) ≡ answers sender sessions xs ++ answers sender sessions ys
answers-append sender sessions [] ys = refl
answers-append sender sessions (x ∷ xs) ys =
    simp (answers-append sender sessions xs ys, append_assoc)

answers-snoc :
    (c : Client) {sessions active : List Client} {before after : List (Option ℕ × Bytes)}
    {ns : List Bytes} (ms : List Bytes) (b : Bytes)
    → after ≡ before ++ (c.session.socket, echo_response b) ∷ notices b (others c active)
    → before ≡ answers c sessions ms
    → ns ≡ ms ++ b ∷ []
    → active ≡ sessions
    → after ≡ answers c sessions ns
answers-snoc c ms b wrote written read same =
    rw (wrote, written, read, same) (simp (answers-append, append-nil))

module _ (os : Os) (c : Client) (t : Task) where
  abbrev got : Reply
  got = read_reply os c.session t.buffer_in (some timeout_ms) t.handler.world

  abbrev outcome : IoResult
  outcome = read_result os c.session t.buffer_in (some timeout_ms) t.handler.world

  abbrev asked : Call
  asked = read_call os c.session t.buffer_in (some timeout_ms) t.handler.world

  abbrev filled : Bytes
  filled = fill got.bytes t.buffer_in

  -- The handler after the read.
  abbrev read_handler : Handler
  read_handler = record t.handler {
    world = (Session.read os c.session t.buffer_in (some timeout_ms) t.handler.world).1;
  }

  round_lem : round os c t ≡ (
      let (r, h) = after_read os c filled outcome outcome.code read_handler in
      (r, record { handler = h; buffer_in = filled }))
  unfolding round
  round_lem =
      rw (read-result os c.session t.buffer_in (some timeout_ms) t.handler.world, continue) refl

  -- The handler after the log entry on what was received.
  abbrev logged_handler : Handler
  logged_handler = record read_handler {
    world =
        (log info
          (record {
            format = "NotificationHandler: Received message: '%s'";
            args = text (take outcome.count filled) ∷ [];
          })
          read_handler.world).1;
  }

  after_read-success :
      after_read os c filled outcome success read_handler
      ≡ (ok true, (process_message os (take outcome.count filled) c logged_handler).1)
  unfolding after_read
  after_read-success =
      rw ((process_message-writes os (take outcome.count filled) c logged_handler).2, continue) refl

  read_handler-calls : read_handler.world.calls ≡ t.handler.world.calls ++ (asked, got) ∷ []
  read_handler-calls = read-calls os c.session t.buffer_in (some timeout_ms) t.handler.world

  logged_handler-calls : logged_handler.world.calls ≡ t.handler.world.calls ++ (asked, got) ∷ []
  unfolding log
  logged_handler-calls = read_handler-calls

  round_data :
      outcome.code ≡ success
      → round os c t ≡ (
        ok true,
        record {
          handler = (process_message os (take outcome.count filled) c logged_handler).1;
          buffer_in = filled;
        },
      )
  unfolding after_read fill process_message
  round_data good = rw (round_lem, good) (rw after_read-success refl)

  round_nothing :
      outcome.code ≢ success
      → ((round os c t).1.handler.world.calls ≡ t.handler.world.calls ++ (asked, got) ∷ [])
        × ((round os c t).1.handler.active_sessions ≡ t.handler.active_sessions)
        × (((round os c t).0 ≡ ok true) ⊎ ((round os c t).0 ≡ ok false))
        × (t.handler.world.time < (round os c t).1.handler.world.time)
  unfolding after_read log
  round_nothing bad = rw round_lem (
      ground (
        arith,
        read_handler-calls,
        read-time os c.session t.buffer_in (some timeout_ms) t.handler.world,
      ))

  pub round_returns : ((round os c t).0 ≡ ok true) ⊎ ((round os c t).0 ≡ ok false)
  round_returns = elim (success-cases outcome.code) [
    | inl good ↦ inl (rw (round_data good) refl)
    | inr bad ↦ (round_nothing bad).2
  ]

  pub round_takes_time : t.handler.world.time < (round os c t).1.handler.world.time
  unfolding process_message
  round_takes_time = elim (success-cases outcome.code) [
    | inl good ↦
        let read = read-time os c.session t.buffer_in (some timeout_ms) t.handler.world in
        let answered = process_message-keeps os (take outcome.count filled) c logged_handler in
        rw (round_data good) (omega (arith, answered.0))
    | inr bad ↦ (round_nothing bad).3
  ]

-- The calls so far: every message that was read made the server write its echo and its
-- notifications, in order, and nothing else was written; the sessions are still active.
abbrev pub Answered : Client → List Client → Task → Type 0
Answered c sessions t =
    (writes_out t.handler.world.calls ≡ answers c sessions (chunks t.handler.world.calls))
    × (t.handler.active_sessions ≡ sessions)

module _ (os : Os) (c : Client) (sessions : List Client) where
  round-Answered :
      (t : Task) → IsPosix os → Answered c sessions t → Answered c sessions (round os c t).1
  round-Answered t posix h = elim (success-cases (outcome os c t).code) [
    | inl good ↦
        let (data_is, data_in) =
          read_data os c.session t.buffer_in (some timeout_ms) t.handler.world posix good in
        let (wrote, kept, _) =
          process_message-writes os (take (outcome os c t).count (filled os c t)) c
            (logged_handler os c t) in
        let (_, read) =
          process_message-keeps os (take (outcome os c t).count (filled os c t)) c
            (logged_handler os c t) in
        let written : writes_out (logged_handler os c t).world.calls
            ≡ answers c sessions (chunks t.handler.world.calls) =
          rw (logged_handler-calls os c t) (simp (observe-snoc, h.0, append-nil)) in
        let chunks_now : chunks (logged_handler os c t).world.calls
            ≡ chunks t.handler.world.calls ++ take (outcome os c t).count (filled os c t) ∷ [] =
          rw (logged_handler-calls os c t)
            (simp (observe-snoc, data_in ∙ ap (λ b. b ∷ []) (sym data_is))) in
        rw (round_data os c t good) (
          answers-snoc c (chunks t.handler.world.calls)
              (take (outcome os c t).count (filled os c t)) wrote written (read ∙ chunks_now) h.1,
          kept ∙ h.1,
        )
    | inr bad ↦
        let (made, kept, _, _) = round_nothing os c t bad in
        (
          rw made (
              simp (
                observe-snoc,
                h.0,
                append-nil,
                read_nothing os c.session t.buffer_in (some timeout_ms) t.handler.world bad,
              )),
          kept ∙ h.1,
        )
  ]

  -- With no other thread in between, each message that the task reads from its client is answered, in
  -- order, with its echo to the client and then its notification to every other active session, and
  -- nothing else is written; this holds at every point of the loop, whatever the system answers.
  pub loop-Answered :
      (rounds : ℕ) (t : Task)
      → IsPosix os
      → Answered c sessions t
      → Answered c sessions
          (while_not_cancelled (λ u. os.cancelled u.handler.world.time) (round os c) rounds t).1
  loop-Answered rounds t posix h =
      while_not_cancelled_inv (λ u. os.cancelled u.handler.world.time) (round os c)
        (round_returns os c) (Answered c sessions) (λ u k. round-Answered u posix k) rounds t h
