-- ===== src/Tcp/Notifying.antt =====
-- src/libtcp/examples/NotificationHandler.h and NotificationHandler.cpp. The model is of one thread;
-- the list of sessions is what it finds there.
use tcp_udp.Base.{
  ℕ, Bool, true, false, some, List, [], ◌∷◌, ◌++◌, ◌==◌, if◌then◌else◌, length, take,
}
use tcp_udp.Std.Text.{Bytes, size_sub}
use tcp_udp.Common.Buffer.{owned_buffer}
use tcp_udp.Sys.Exec.{text, size, Exec, ok, pure, ◌>>=◌, ◌>>◌, zoom}
use tcp_udp.Sys.Loop.{Loop, finished, running, while_not_cancelled}
use tcp_udp.Sys.World.{World, Os, log, info}
use tcp_udp.Io.{IoResult, IoResultCode, success, connection_closed, timeout, error}
use tcp_udp.Tcp.Session
use tcp_udp.Tcp.Session.{Session}
use tcp_udp.Tcp.Messages.{echo_response, notification}

-- A shared pointer to a session: two pointers are equal if their numbers are.
pub record Client : Type 0 where
  pub pointer : ℕ
  pub session : Session

pub record Handler : Type 0 where
  pub world : World
  pub active_sessions : List Client

abbrev buffer_size : ℕ
buffer_size = 1024

abbrev pub timeout_ms : ℕ
timeout_ms = 100

abbrev on_world : {A : Type 0} → Exec World A → Exec Handler A
on_world = zoom (λ h. h.world) (λ w h. record h { world = w })

-- What `handle_client` does before it makes the task.
unfoldable pub handle_client : Client → Exec Handler (Unit {0})
unfolding log
handle_client client h =
    let sessions = h.active_sessions ++ client ∷ [] in
    (do
      on_world
          (log info (record { format = "NotificationHandler: New client connected"; args = [] }))
      (λ g. (ok tt, record g { active_sessions = sessions }))
      on_world (
          log info (record {
            format = "NotificationHandler: Total active sessions: %zu";
            args = size (length sessions) ∷ [];
          })))
      h

-- `std::find` and `erase`: the first entry with this pointer goes.
unfoldable pub erase_first : ℕ → List Client → List Client
erase_first pointer [] = []
erase_first pointer (c ∷ rest) = if c.pointer == pointer then rest else c ∷ erase_first pointer rest

unfoldable pub holds : ℕ → List Client → Bool
holds pointer [] = false
holds pointer (c ∷ rest) = if c.pointer == pointer then true else holds pointer rest

unfoldable pub remove_session : Client → Exec Handler (Unit {0})
unfolding log
remove_session client h =
    let left = erase_first client.pointer h.active_sessions in
    if holds client.pointer h.active_sessions
    then on_world
        (log info (record {
          format = "NotificationHandler: Removed session, remaining: %zu";
          args = size (length left) ∷ [];
        }))
        (record h { active_sessions = left })
    else (ok tt, h)

module _ (os : Os) where
  unfoldable pub send_echo_response : Bytes → Client → Exec World (Unit {0})
  unfolding Session.write log
  send_echo_response message sender = do
    echo_result ← Session.write os sender.session (echo_response message) (some timeout_ms)
    log info (record { format = "NotificationHandler: Sent echo response to sender"; args = [] })

  unfoldable pub notify_one : Bytes → Client → Exec World (Unit {0})
  unfolding Session.write log
  notify_one message c = do
    notify_result ← Session.write os c.session (notification message) (some timeout_ms)
    log info
        (record { format = "NotificationHandler: Sent notification to other client"; args = [] })

  unfoldable pub notify_all : Bytes → Client → List Client → Exec World (Unit {0})
  unfolding notify_one
  notify_all message sender [] = pure tt
  notify_all message sender (c ∷ rest) =
      (if c.pointer == sender.pointer then pure tt else notify_one message c)
      >> notify_all message sender rest

  unfoldable pub send_notifications_to_others : Bytes → Client → List Client → Exec World (Unit {0})
  unfolding notify_all log
  send_notifications_to_others message sender sessions = do
    log info (record {
      format = "NotificationHandler: Sending notifications to %zu other clients";
      args = size (size_sub (length sessions) 1) ∷ [];
    })
    notify_all message sender sessions

  unfoldable pub process_message : Bytes → Client → Exec Handler (Unit {0})
  unfolding send_echo_response send_notifications_to_others
  process_message message sender h =
      on_world
        (do
          send_echo_response message sender
          send_notifications_to_others message sender h.active_sessions)
        h

-- The handler with the variable `buffer_in` of the task.
pub record Task : Type 0 where
  pub handler : Handler
  pub buffer_in : Bytes

unfoldable pub start : Handler → Task
start h = record { handler = h; buffer_in = owned_buffer buffer_size }

abbrev on_handler : {A : Type 0} → Exec Handler A → Exec Task A
on_handler = zoom (λ t. t.handler) (λ h t. record t { handler = h })

abbrev set_buffer : Bytes → Exec Task (Unit {0})
set_buffer filled t = (ok tt, record t { buffer_in = filled })

log_disconnected : Exec World (Unit {0})
unfolding log
log_disconnected =
    log info (record { format = "NotificationHandler: Client disconnected"; args = [] })

module _ (os : Os) where
  unfoldable pub after_read : Client → Bytes → IoResult → IoResultCode → Exec Handler Bool
  unfolding process_message log_disconnected log
  after_read client filled r error = on_world log_disconnected >> pure false
  after_read client filled r connection_closed = on_world log_disconnected >> pure false
  after_read client filled r timeout = pure true
  after_read client filled r success = do
    on_world (
        log info (record {
          format = "NotificationHandler: Received message: '%s'";
          args = text (take r.count filled) ∷ [];
        }))
    process_message os (take r.count filled) client
    pure true

  unfoldable pub round : Client → Exec Task Bool
  unfolding Session.read after_read
  round client t =
      (do
        (result, filled) ←
            on_handler (on_world (Session.read os client.session t.buffer_in (some timeout_ms)))
        set_buffer filled
        on_handler (after_read client filled result result.code))
        t

  leave : Client → Loop → Exec Task Loop
  unfolding remove_session
  leave client running = pure running
  leave client finished = do on_handler (remove_session client); pure finished

  -- The task that `handle_client` makes, with at most `rounds` rounds of its loop.
  unfoldable pub run_task : ℕ → Client → Exec Task Loop
  unfolding round leave
  run_task rounds client = do
    ended ← while_not_cancelled (λ t. os.cancelled t.handler.world.time) (round client) rounds
    leave client ended
