-- ===== src/Notifiable/Threads.antt =====
-- The threads of NotifiableClient.cpp: `sender_loop` and `receiver_loop`. The flag `running_` is the
-- negation of `cancelled`, and the sleep of the sender is left out.
use tcp_udp.Base.{ℕ, suc, Bool, true, false, Option, none, some, [], ◌∷◌, ◌++◌, length, take}
use tcp_udp.Base.Int.{ℤ, int_suc}
use tcp_udp.Std.Text.{Bytes, codes}
use tcp_udp.Std.Decimal.{int_to_string}
use tcp_udp.Common.Buffer.{owned_buffer, standard_buffer_size, short_timeout}
use tcp_udp.Sys.Exec.{text, Exec, ok, pure, ◌>>=◌, ◌>>◌, zoom}
use tcp_udp.Sys.Loop.{Loop, while_not_cancelled}
use tcp_udp.Sys.World.{World, Os, LogLevel, log, info}
use tcp_udp.Io.{IoResult, IoResultCode, success, connection_closed, timeout, error}
use tcp_udp.Tcp.Session
use tcp_udp.Tcp.Session.{Session}
use tcp_udp.Notifiable.Message.{create_request_message}
use tcp_udp.Notifiable.Validator.{Validator}
use tcp_udp.Notifiable.Stream.{process_response}

-- The sending thread with what it changes.
pub record Sender : Type 0 where
  pub world : World
  pub current_sequence_number : ℤ
  pub request_count : ℤ

abbrev sender_world : {A : Type 0} → Exec World A → Exec Sender A
sender_world = zoom (λ s. s.world) (λ w s. record s { world = w })

-- The text of the request that is numbered `sequence_number`.
unfoldable pub request_text : Bytes → ℤ → ℤ → Bytes
request_text client_id sequence_number request_count =
    create_request_message client_id sequence_number
      (codes "request from " ++ (client_id ++ (codes ": " ++ int_to_string request_count)))

report_sent : Bytes → IoResult → IoResultCode → Exec World Bool
unfolding log
report_sent message r success = do
  log info (record { format = "Sent: %s"; args = text message ∷ [] })
  pure true
report_sent message r _ = do
  log LogLevel.error
      (record { format = "Failed to send message: %s"; args = text r.error_message ∷ [] })
  pure false

-- The receiving thread with its buffer and the checks.
pub record Receiver : Type 0 where
  pub world : World
  pub buffer : Bytes
  pub validator : Validator

unfoldable pub start_receiver : World → Validator → Receiver
start_receiver w v = record { world = w; buffer = owned_buffer standard_buffer_size; validator = v }

abbrev receiver_world : {A : Type 0} → Exec World A → Exec Receiver A
receiver_world = zoom (λ s. s.world) (λ w s. record s { world = w })

abbrev set_buffer : Bytes → Exec Receiver (Unit {0})
set_buffer filled s = (ok tt, record s { buffer = filled })

abbrev result_or : Validator → Option Validator → Validator
result_or v none = v
result_or v (some w) = w

-- The fuel is enough: `process_response-total`.
unfoldable pub process_received : Bytes → Validator → Validator
process_received response v = result_or v (process_response (suc (length response)) response v)

abbrev process : Bytes → Exec Receiver (Unit {0})
process response s = (ok tt, record s { validator = process_received response s.validator })

-- The count of a success is positive. An error is not told from a timeout: the loop goes on.
unfoldable pub after_read : Bytes → IoResultCode → Exec Receiver Bool
unfolding log
after_read response success = do
  receiver_world (log info (record { format = "Received: %s"; args = text response ∷ [] }))
  process response
  pure true
after_read response connection_closed = do
  receiver_world (log info (record { format = "Server disconnected"; args = [] }))
  pure false
after_read response timeout = pure true
after_read response error = pure true

module _ (os : Os) (session : Session) where
  unfoldable pub send_request : Bytes → Exec Sender Bool
  unfolding Session.write report_sent request_text
  send_request client_id s =
      let number = int_suc s.current_sequence_number in
      let message = request_text client_id number s.request_count in
      sender_world
        (do result ← Session.write os session message none; report_sent message result result.code)
        (record s { current_sequence_number = number; request_count = int_suc s.request_count })

  -- At most `rounds` rounds.
  unfoldable pub sender_loop : ℕ → Bytes → Exec Sender Loop
  unfolding send_request
  sender_loop rounds client_id =
      while_not_cancelled (λ s. os.cancelled s.world.time) (send_request client_id) rounds

  unfoldable pub receive : Exec Receiver Bool
  unfolding Session.read after_read
  receive s =
      (do
        (result, filled) ← receiver_world (Session.read os session s.buffer (some short_timeout))
        set_buffer filled
        after_read (take result.count filled) result.code)
        s

  unfoldable pub receiver_loop : ℕ → Exec Receiver Loop
  unfolding receive
  receiver_loop rounds = while_not_cancelled (λ s. os.cancelled s.world.time) receive rounds
